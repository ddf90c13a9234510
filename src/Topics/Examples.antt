-- ===== src/Topics/Examples.antt =====
-- Tests of the topics, and their theorems at a concrete topic.
use irrigation.Base.{◌≡◌, refl, ◌++◌}
use irrigation.Topics.{codes, normalize_topic, on_suffix, rstrip, strip_on}
use irrigation.Topics.Normal.{normalize_topic-on}

relay_topic : normalize_topic (codes " ///devices/relay/K1/on ") ≡ codes "/devices/relay/K1"
unfolding normalize_topic
relay_topic = refl

normalize_topic-on_example :
    (normalize_topic (codes "/K1") ≡ codes "/K1")
    × (normalize_topic (codes "/K1" ++ on_suffix) ≡ codes "/K1")
unfolding rstrip strip_on
normalize_topic-on_example = normalize_topic-on b'K' (codes "1") refl refl refl
