-- ===== src/Httpmw/RateLimit.antt =====
-- internal/httpmw/ratelimit.go: a limiter for each client address.
pub mod Separate
use agenthub_server.Base.{
  Text, str, ◌==◌, ℕ, ◌+◌, ◌*◌, Bool, true, false, not, Option, none, some, List, [], ◌∷◌, ◌++◌,
  map, eqb, ltb, find, where_rows, if◌then◌else◌,
}
use agenthub_server.World.{World, second}
use agenthub_server.Httpmw.{Request, Response, Handler, HostOf, client_ip}

-- golang.org/x/time/rate: a new limiter of a rate and burst, and Allow at a time.
pub record RateLib (L : Type 0) : Type 0 where
  pub new_limiter : L
  pub allow : ℕ → L → Bool × L

-- An entry of the map `buckets`; durations and times are nanoseconds.
pub record Bucket (L : Type 0) : Type 0 where
  pub ip : Text
  pub limiter : L
  pub seen : ℕ

-- cfg.TTL, or five minutes
abbrev pub bucket_ttl : ℕ → ℕ
bucket_ttl ttl = if eqb ttl 0 then 300 * second else ttl

-- now.Sub(v.seen) > cfg.TTL
abbrev pub is_stale : {L : Type 0} → ℕ → ℕ → Bucket L → Bool
is_stale ttl now b = ltb (b.seen + ttl) now

abbrev pub of_ip : {L : Type 0} → Text → Bucket L → Bool
of_ip ip b = b.ip == ip

-- The loop that deletes the stale buckets
unfoldable pub evict : {L : Type 0} → ℕ → ℕ → List (Bucket L) → List (Bucket L)
evict ttl now bs = where_rows (λ b. not (is_stale ttl now b)) bs

abbrev pub limiter_or_new : {L : Type 0} → RateLib L → Option (Bucket L) → L
limiter_or_new lib none = lib.new_limiter
limiter_or_new lib (some b) = b.limiter

-- The limiter that `get` returns, after the eviction
unfoldable pub get_limiter : {L : Type 0} → RateLib L → ℕ → Text → ℕ → List (Bucket L) → L
get_limiter lib ttl ip now bs = limiter_or_new lib (find (of_ip ip) (evict ttl now bs))

-- The map after the request: the limiter, as Allow leaves it, under the address and seen now.
unfoldable pub put_limiter : {L : Type 0} → ℕ → Text → ℕ → L → List (Bucket L) → List (Bucket L)
put_limiter ttl ip now limiter bs =
    where_rows (λ b. not (of_ip ip b)) (evict ttl now bs)
    ++ record { ip = ip; limiter = limiter; seen = now } ∷ []

-- Whether the request is let through, and the map that it leaves; the answer otherwise is 429.
unfoldable pub rate_limit :
    {L : Type 0} → RateLib L → ℕ → Text → ℕ → List (Bucket L) → Bool × List (Bucket L)
rate_limit lib ttl ip now bs =
    let answer = lib.allow now (get_limiter lib (bucket_ttl ttl) ip now bs) in
    (answer.0, put_limiter (bucket_ttl ttl) ip now answer.1 bs)

-- The middleware around a handler
unfoldable pub rate_limited :
    {L : Type 0}
    → RateLib L
    → ℕ
    → HostOf
    → Handler
    → Request
    → World
    → List (Bucket L)
    → (Response × World) × List (Bucket L)
rate_limited lib ttl host_of next r w bs =
    let answer = rate_limit lib ttl (client_ip host_of r) w.now bs in
    (
      elim answer.0 [
        | true ↦ next r w
        | false ↦ (record { code = 429; body = str "rate limit exceeded\n" }, w)
      ],
      answer.1,
    )
