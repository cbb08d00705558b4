-- ===== src/TopicKey/Tests.antt =====
-- The theorems on topic keys, applied to a topic that fits and to one that does not.
use rmw_zenoh_pico.Prelude.{◌≡◌, none, some, ◌∷◌, codes, replicate, arith}
use rmw_zenoh_pico.TopicKey.{strip_slash, ends_with_slash, ros_topic_name_to_zenoh_key}
use rmw_zenoh_pico.TopicKey.Fits.{zenoh_key-text}
use rmw_zenoh_pico.TopicKey.Faults.{zenoh_key-overflow}
use rmw_zenoh_pico.Conversion.{RmwQosProfile, test_qos_profile}
use rmw_zenoh_pico.Prelude.{sym, ◌∙◌, Bytes}
use rmw_zenoh_pico.TopicKey.Fits.{name_text}
use rmw_zenoh_pico.TopicKey.Distinct.{IsTopic, zenoh_key-injective}

abbrev reliable : RmwQosProfile
reliable = record test_qos_profile { reliability = 1; depth = 3 }

zenoh_key-text_example :
    ros_topic_name_to_zenoh_key (codes "7") (codes "/chatter") (codes "String_") (codes "RIHS01_0a")
    ≡ some (codes "7/chatter/String_/RIHS01_0a")
zenoh_key-text_example =
    zenoh_key-text (codes "7") (codes "/chatter") (codes "String_") (codes "RIHS01_0a")
      (omega arith)

zenoh_key-overflow_example :
    ros_topic_name_to_zenoh_key
      (codes "7")
      (b'/' ∷ replicate 300 b'a')
      (codes "String_")
      (codes "R")
    ≡ none
unfolding strip_slash
zenoh_key-overflow_example =
    zenoh_key-overflow (codes "7") (codes "String_") (codes "R") b'/' (replicate 300 b'a')
      (omega arith) (omega arith)

chatter-IsTopic : IsTopic (codes "7") (codes "/chatter") (codes "String_") (codes "RIHS01_0a")
unfolding strip_slash ends_with_slash
chatter-IsTopic = ground arith

closed_chatter-IsTopic :
    IsTopic (codes "7") (codes "chatter/") (codes "String_") (codes "RIHS01_0a")
unfolding strip_slash ends_with_slash
closed_chatter-IsTopic = ground arith

one_key :
    ros_topic_name_to_zenoh_key (codes "7") (codes "/chatter") (codes "String_") (codes "RIHS01_0a")
    ≡ ros_topic_name_to_zenoh_key
        (codes "7")
        (codes "chatter/")
        (codes "String_")
        (codes "RIHS01_0a")
unfolding strip_slash ends_with_slash
one_key =
    zenoh_key-text (codes "7") (codes "/chatter") (codes "String_") (codes "RIHS01_0a")
      (omega arith)
    ∙ sym (
        zenoh_key-text (codes "7") (codes "chatter/") (codes "String_") (codes "RIHS01_0a")
          (omega arith))

zenoh_key-injective_example :
    ◌≡◌ {A = Bytes} (codes "7") (codes "7")
    × (name_text (codes "/chatter") ≡ name_text (codes "chatter/"))
    × ◌≡◌ {A = Bytes} (codes "String_") (codes "String_")
    × ◌≡◌ {A = Bytes} (codes "RIHS01_0a") (codes "RIHS01_0a")
zenoh_key-injective_example =
    zenoh_key-injective (codes "7") (codes "/chatter") (codes "String_") (codes "RIHS01_0a")
      (codes "7") (codes "chatter/") (codes "String_") (codes "RIHS01_0a") chatter-IsTopic
      closed_chatter-IsTopic one_key
