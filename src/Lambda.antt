-- ===== src/Lambda.antt =====
-- deploy/aws-lambda: the deployment behind an API Gateway.
pub mod Environment
pub mod SecretCache
pub mod Handler
