-- ===== src/Services.antt =====
-- internal/services: one module for each service.
pub mod Password
pub mod Credentials
pub mod Postgres
pub mod Redis
pub mod Rabbitmq
pub mod Mongodb
pub mod Aistor
pub mod Signoz
