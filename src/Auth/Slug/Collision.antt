-- ===== src/Auth/Slug/Collision.antt =====
-- When two accounts get one slug. The first characters of a UUIDv7 are those of its timestamp, so
-- accounts that are made within some hours of one another agree on them.
use agenthub_server.Base.{Text, ◌≡◌, length, take}
use agenthub_server.World.{Env}
use agenthub_server.Auth.Slug.{slugify}

-- Accounts of one name whose ids agree on the first eight characters, and are as long, have one
-- slug: the suffix, which is the first six, does not tell them apart.
pub slugify-collides :
    (env : Env) (name a b : Text)
    → length a ≡ length b
    → take 8 a ≡ take 8 b
    → take 6 a ≡ take 6 b
    → slugify env name a ≡ slugify env name b
unfolding slugify
slugify-collides env name a b long eight six = rw (long, eight, six)
