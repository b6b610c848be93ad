-- ===== src/Examples.antt =====
-- Runs of the theorems on concrete values.
mod OutboxExamples
mod OrderExamples
mod CheckoutExamples
mod EdgeExamples
mod RelayExamples
mod StoreExamples
mod ConsumerExamples
mod BrokerExamples
mod DiscountExamples
