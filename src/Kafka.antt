-- ===== src/Kafka.antt =====
-- `NewProducer` of internal/kafka/producer.go. The writer of kafka-go is known by its brokers and its
-- topic; it is asynchronous, so what it does with a message is not seen.
use iicpc_distributed_benchm.Base.{if◌then◌else◌, List, [], ◌∷◌, Text, text, Result, done, failed}
use iicpc_distributed_benchm.Config.{is_empty}

-- `Producer`
pub record Producer : Type 0 where
  pub brokers : List Text
  pub topic : Text

-- `NewProducer`
unfoldable pub new_producer : List Text → Text → Result Producer
new_producer [] topic = failed (text "kafka brokers required")
new_producer (b ∷ bs) topic =
    done (record { brokers = b ∷ bs; topic = if is_empty topic then text "metrics" else topic })

-- `kafkago.Message`
pub record Message : Type 0 where
  pub key : Text
  pub value : Text

-- `Publish`: the message that it passes to the writer.
abbrev pub message : Text → Text → Message
message key value = record { key = key; value = value }
