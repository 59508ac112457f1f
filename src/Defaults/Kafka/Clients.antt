-- ===== src/Defaults/Kafka/Clients.antt =====
-- kafka/kafka.go: the remaining options, NewProducer and NewConsumerGroup. The constructors of the library are
-- parameters, and its configuration is known by the fields that are set.
use opendevops_codo_golang_s.Defaults.Kafka.{KafkaConfig, configure_net, Net}
use opendevops_codo_golang_s.Common.{
  ◌∷◌, Bytes, List, ℕ, Bool, foldl, utf8, ◌⊎◌, false, inl, true, inr, ◌+◌, [], ◌++◌,
}

unfoldable with_group_id : Bytes → KafkaConfig → KafkaConfig
with_group_id group_id c = record c { group_id = group_id }

unfoldable with_sasl_mechanism : Bytes → KafkaConfig → KafkaConfig
with_sasl_mechanism mechanism c = record c { sasl_mechanism = mechanism }

unfoldable with_write_timeout : ℕ → KafkaConfig → KafkaConfig
with_write_timeout t c = record c { write_timeout = t }

unfoldable with_read_timeout : ℕ → KafkaConfig → KafkaConfig
with_read_timeout t c = record c { read_timeout = t }

unfoldable with_dial_timeout : ℕ → KafkaConfig → KafkaConfig
with_dial_timeout t c = record c { dial_timeout = t }

-- sarama.Config: Version, Producer.Return.Successes, whether Consumer.Offsets.Initial is the oldest, and Net.
record SaramaConfig : Type 0 where
  pub version : Bytes
  pub return_successes : Bool
  pub from_oldest : Bool
  pub net : Net

-- The settings of both constructors.
unfoldable settings : KafkaConfig → List (KafkaConfig → KafkaConfig) → KafkaConfig
settings default_config opts = foldl (λ c o. o c) default_config opts

-- What NewProducer passes to sarama.NewAsyncProducer beside the servers.
unfoldable producer_config : KafkaConfig → SaramaConfig → SaramaConfig
unfolding configure_net
producer_config c config = record config {
  version = utf8 "2.5.0";
  return_successes = true;
  net = configure_net c config.net;
}

-- What NewConsumerGroup passes to sarama.NewConsumerGroup beside the servers and the group.
unfoldable consumer_config : KafkaConfig → SaramaConfig → SaramaConfig
unfolding configure_net
consumer_config c config = record config {
  version = utf8 "2.5.0";
  from_oldest = true;
  net = configure_net c config.net;
}

-- NewProducer up to the two goroutines; P is the wrapped producer.
unfoldable new_producer :
    {P : Type 0}
    → (start : List Bytes → SaramaConfig → P ⊎ Bytes) → (new_config : SaramaConfig) → KafkaConfig
    → List (KafkaConfig → KafkaConfig)
    → P ⊎ Bytes
unfolding settings producer_config
new_producer start new_config default_config opts =
    let c = settings default_config opts in
    elim (start c.bootstrap_servers (producer_config c new_config)) [
      | inl p ↦ inl p
      | inr e ↦ inr (utf8 "starting Sarama producer: " ++ e)
    ]

-- NewConsumerGroup; the error is without the stack trace behind it.
unfoldable new_consumer_group :
    {G : Type 0}
    → (start : List Bytes → Bytes → SaramaConfig → G ⊎ Bytes) → (new_config : SaramaConfig)
    → KafkaConfig
    → List (KafkaConfig → KafkaConfig)
    → G ⊎ Bytes
unfolding settings consumer_config
new_consumer_group start new_config default_config opts =
    let c = settings default_config opts in
    elim (start c.bootstrap_servers c.group_id (consumer_config c new_config)) [
      | inl g ↦ inl g
      | inr e ↦ inr (utf8 "starting consumer group: " ++ e)
    ]

-- One round of a goroutine of NewProducer: a value of its channel is taken, or the context is done.
data Drained : Type 0 where
  taken stopped : Drained

-- How many values a goroutine takes before it returns, and whether it has returned.
unfoldable drain : List Drained → ℕ × Bool
drain [] = (0, false)
drain (taken ∷ rest) = let (n, ended) = drain rest in (n + 1, ended)
drain (stopped ∷ rest) = (0, true)
