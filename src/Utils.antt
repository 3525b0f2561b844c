-- ===== src/Utils.antt =====
-- src/utils.cpp: `extract_jwt_payload`. The rest of the file stands in HttpClient/Client.
pub mod Jwt
pub mod Output
