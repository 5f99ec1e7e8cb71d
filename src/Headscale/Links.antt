-- ===== src/Headscale/Links.antt =====
-- What minting a key leaves in the links, and for whom the key is.
use agenthub_server.Base.{
  Text, ◌==◌, ℕ, ◌+◌, ◌≡◌, refl, ap, subst, true, ◌&&◌, ◌||◌, Option, none, some, List, [], ◌∷◌,
  ◌++◌, ◌⊎◌, inl, inr, arith, eqb, find, has, ◌∙◌, ==_refl, find-append-none, has-wider,
}
use agenthub_server.Schema.{LinkRow, Database}
use agenthub_server.Schema.Inserts.{link_clash, insert_link}
use agenthub_server.World.{Err, World, Outcome, world_of, ok, err}
use agenthub_server.Devices.{PreAuthKeyInput, PreAuthKey, OnlyLinks, Headscaler}
use agenthub_server.Headscale.{
  Link, link_row, create_link, link_of, scan_link, get_link, HeadscaleUser, named,
  find_user_by_name, create_user, create_pre_auth_key, Service, add_link, ensure_link,
  mint_pre_auth_key,
}

-- Minting changes no other table, so the service is a Headscaler.
mint-OnlyLinks :
    (s : Service) (i : PreAuthKeyInput) (w : World)
    → OnlyLinks w.db (world_of (mint_pre_auth_key s i w)).db
unfolding mint_pre_auth_key ensure_link add_link get_link create_link find_user_by_name create_user
    create_pre_auth_key insert_link
mint-OnlyLinks s i w = ground arith

mint-db :
    (s : Service) (i : PreAuthKeyInput) (w : World) {k : PreAuthKey} {v : World}
    → mint_pre_auth_key s i w ≡ ok k v
    → OnlyLinks w.db v.db
mint-db s i w h = subst (λ o. OnlyLinks w.db (world_of o).db) h (mint-OnlyLinks s i w)

mint-err-db :
    (s : Service) (i : PreAuthKeyInput) (w : World) {e : Err} {v : World}
    → mint_pre_auth_key s i w ≡ err e v
    → OnlyLinks w.db v.db
mint-err-db s i w h = subst (λ o. OnlyLinks w.db (world_of o).db) h (mint-OnlyLinks s i w)

-- var _ devices.Headscaler = (*Service)(nil)
abbrev headscaler : Service → Headscaler
headscaler s = record {
  mint = mint_pre_auth_key s;
  mint-db = λ i w {k} {w'} h. mint-db s i w h;
  mint-err-db = λ i w {e} {w'} h. mint-err-db s i w h;
}

-- The link of a user in an account is there, and the key is one for its Headscale user.
pub record IsLinked (s : Service) (i : PreAuthKeyInput) (now : ℕ) (d d' : Database) (k : PreAuthKey)
    : Type 0 where
  pub row : LinkRow
  pub there : find (link_of i.account_id i.user_id) d'.headscale_user_links ≡ some row
  pub key_for : s.client.create_pre_auth_key now row.headscale_user_id (now + i.ttl) ≡ some k.key
  pub links :
      (d'.headscale_user_links ≡ d.headscale_user_links)
      ⊎ ((find (link_of i.account_id i.user_id) d.headscale_user_links ≡ none)
          × (d'.headscale_user_links ≡ d.headscale_user_links ++ row ∷ []))

ensured_lem :
    (s : Service) (i : PreAuthKeyInput) (w : World) {k : PreAuthKey} {v : World}
    → mint_pre_auth_key s i w ≡ ok k v
    → (l : Link) × (u : World) × (ensure_link s i.account_id i.user_id w ≡ ok l u)
      × (s.client.create_pre_auth_key u.now l.headscale_user_id (u.now + i.ttl) ≡ some k.key)
      × (v.db ≡ u.db)
unfolding mint_pre_auth_key create_pre_auth_key
ensured_lem s i w h = ground arith

existing_lem :
    (s : Service) (account_id user_id : Text) (w : World) (r : LinkRow) {l : Link} {u : World}
    → find (link_of account_id user_id) w.db.headscale_user_links ≡ some r
    → ensure_link s account_id user_id w ≡ ok l u
    → (l ≡ scan_link r) × (u.db ≡ w.db) × (u.now ≡ w.now)
unfolding ensure_link get_link
existing_lem s account_id user_id w r there h =
    (ground (arith, there), ground (arith, there), ground (arith, there))

-- Where there is no link, the user of the name is found or made, and linked.
added_lem :
    (s : Service) (account_id user_id : Text) (w : World) {l : Link} {u : World}
    → find (link_of account_id user_id) w.db.headscale_user_links ≡ none
    → ensure_link s account_id user_id w ≡ ok l u
    → (l.account_id ≡ account_id)
      × (l.user_id ≡ user_id)
      × (u.now ≡ w.now)
      × (u.db.headscale_user_links ≡ w.db.headscale_user_links ++ link_row l w ∷ [])
unfolding ensure_link add_link get_link find_user_by_name create_user create_link insert_link
added_lem s account_id user_id w none_such h = (
  ground (arith, none_such),
  ground (arith, none_such),
  ground (arith, none_such),
  ground (arith, none_such),
)

new_row :
    (account_id user_id : Text) (rows : List LinkRow) (r : LinkRow)
    → find (link_of account_id user_id) rows ≡ none
    → r.account_id ≡ account_id
    → r.user_id ≡ user_id
    → find (link_of account_id user_id) (rows ++ r ∷ []) ≡ some r
unfolding find
new_row account_id user_id rows r none_such a b =
    find-append-none (link_of account_id user_id) rows (r ∷ []) none_such
    ∙ ground (arith, a, b, ==_refl account_id, ==_refl user_id)

-- MintPreAuthKey, where it succeeds, hands out a key that Headscale made for the Headscale user whom
-- the links have for the account and user, expiring after the given time; a link that was there is
-- kept, and one that was not is added, as the only change of the links.
pub mint_sound :
    (s : Service) (i : PreAuthKeyInput) (w : World) {k : PreAuthKey} {v : World}
    → mint_pre_auth_key s i w ≡ ok k v
    → IsLinked s i w.now w.db v.db k
mint_sound s i w {k} {v} h =
    by_link (find (link_of i.account_id i.user_id) w.db.headscale_user_links) refl
  where
    facts :
        (l : Link) × (u : World) × (ensure_link s i.account_id i.user_id w ≡ ok l u)
        × (s.client.create_pre_auth_key u.now l.headscale_user_id (u.now + i.ttl) ≡ some k.key)
        × (v.db ≡ u.db)
    facts = ensured_lem s i w h

    by_link :
        (o : Option LinkRow)
        → find (link_of i.account_id i.user_id) w.db.headscale_user_links ≡ o
        → IsLinked s i w.now w.db v.db k
    by_link none none_such =
        let (l, u, ensured, key, same) = facts in
        let (a, b, clock, grown) = added_lem s i.account_id i.user_id w none_such ensured in
        rw same (record {
          row = link_row l w;
          there = rw grown (
              new_row i.account_id i.user_id w.db.headscale_user_links (link_row l w) none_such a
                b);
          key_for = ground (arith, key, clock);
          links = inr (none_such, grown);
        })
    by_link (some r) there =
        let (l, u, ensured, key, same) = facts in
        let (scanned, kept, clock) = existing_lem s i.account_id i.user_id w r there ensured in
        rw same (record {
          row = r;
          there = rw kept there;
          key_for = ground (arith, key, clock, scanned);
          links = inl (ap (λ (d : Database). d.headscale_user_links) kept);
        })

abbrev pub IsFailed {ℓ} : {A : Type ℓ} → Outcome A → Type 0
IsFailed (ok a v) = ⊥
IsFailed (err e v) = Unit

-- The name of a Headscale user has the user's id and not the account's. If Headscale finds a user of
-- the name, and that one is already linked for the user in another account, then for an account with
-- no link yet minting fails whatever happens, and the links stay as they are.
pub second_account_refused :
    (s : Service) (i : PreAuthKeyInput) (w : World) (users : List HeadscaleUser) (u : HeadscaleUser)
    → s.client.list_users w.now (s.user_prefix ++ i.user_id) ≡ some users
    → find (named (s.user_prefix ++ i.user_id)) users ≡ some u
    → has (λ l. eqb l.headscale_user_id u.id) w.db.headscale_user_links ≡ true
    → find (link_of i.account_id i.user_id) w.db.headscale_user_links ≡ none
    → IsFailed (mint_pre_auth_key s i w) × ((world_of (mint_pre_auth_key s i w)).db ≡ w.db)
unfolding mint_pre_auth_key ensure_link add_link get_link find_user_by_name create_link insert_link
    link_clash
second_account_refused s i w users u listed there taken none_such =
    let clash =
      has-wider (λ l. eqb l.headscale_user_id u.id)
        (λ l.
          (l.account_id == i.account_id && l.user_id == i.user_id) || eqb l.headscale_user_id u.id)
        w.db.headscale_user_links (λ l e. ground arith) taken in
    (
      ground (arith, listed, there, none_such, clash),
      ground (arith, listed, there, none_such, clash),
    )
