-- ===== src/Api.antt =====
-- firmware/tinyvoice/src/api_client.cpp: the client of the server's API. Texts are lists of their
-- codes; what the TLS client, the server and the clock answer is a list of answers, an argument.
pub mod Endpoint
pub mod Tls
pub mod Post
pub mod Multipart
pub mod Download
pub mod Calls
mod Examples
