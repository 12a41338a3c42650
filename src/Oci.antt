-- ===== src/Oci.antt =====
-- internal/oci/client.go: choosing a tag in a channel (Tags) and the cache of tag lists (Cache).
pub mod Tags
pub mod Cache
