-- ===== src/Httpmw/RateLimit/Separate.antt =====
-- The requests of one address do not use up what another may send.
use agenthub_server.Base.{
  Text, ◌==◌, ℕ, ◌≡◌, ap, false, List, [], ◌∷◌, arith, find, where_rows, ==_iff,
}
use agenthub_server.Httpmw.RateLimit.{
  RateLib, Bucket, bucket_ttl, of_ip, evict, limiter_or_new, get_limiter, put_limiter, rate_limit,
}

-- What another address finds after the eviction, with the entry of `ip` taken out and put last.
find-put :
    {L : Type 0} (ttl now : ℕ) (ip other : Text) (limiter : L) (bs : List (Bucket L))
    → (ip == other) ≡ false
    → find (of_ip other) (evict ttl now (put_limiter ttl ip now limiter bs))
      ≡ find (of_ip other) (evict ttl now bs)
unfolding find where_rows evict put_limiter
find-put ttl now ip other limiter [] differ = ground (arith, differ)
find-put ttl now ip other limiter (b ∷ bs) differ = ground (
  arith,
  differ,
  ==_iff b.ip ip,
  ==_iff b.ip other,
  ==_iff ip other,
  find-put ttl now ip other limiter bs differ,
)

-- A request of one address, served or not, leaves the limiter that the next request of every other
-- address meets at that time as it was.
pub rate_limit_separate :
    {L : Type 0} (lib : RateLib L) (ttl now : ℕ) (ip other : Text) (bs : List (Bucket L))
    → (ip == other) ≡ false
    → get_limiter lib (bucket_ttl ttl) other now (rate_limit lib ttl ip now bs).1
      ≡ get_limiter lib (bucket_ttl ttl) other now bs
unfolding rate_limit get_limiter
rate_limit_separate lib ttl now ip other bs differ =
    ap (limiter_or_new lib) (find-put (bucket_ttl ttl) now ip other _ bs differ)
