-- ===== src/Tenancy/Users.antt =====
-- NULL columns of internal/tenancy: what is stored of an empty string, and what is read back.
use agenthub_server.Base.{Text, [], ◌∷◌, ◌≡◌, refl}
use agenthub_server.Tenancy.{coalesce, null_if_empty}

pub coalesce-null_if_empty : (s : Text) → coalesce (null_if_empty s) ≡ s
coalesce-null_if_empty [] = refl
coalesce-null_if_empty (c ∷ s) = refl
