-- ===== src/Ingress/Tests.antt =====
-- The ingress controller on concrete inputs.
mod Cluster
mod Sample
mod Examples
