-- ===== src/Aws.antt =====
-- python/shim-service/src/aws/dynamodb.py: the client of DynamoDB.
pub mod Values
pub mod Results
