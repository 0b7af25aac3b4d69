-- ===== src/Kafka/Tests.antt =====
-- The controller of KnativeKafka on a small cluster.
mod Sample
mod Examples
