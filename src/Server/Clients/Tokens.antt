-- ===== src/Server/Clients/Tokens.antt =====
-- Whose token is accepted.
use usbover_ip.Base.{
  String, ◌≡◌, ◌≢◌, refl, sym, ◌∙◌, ap, subst, ◌⊎◌, inl, inr, Bool, true, false, Option, none, some,
  [], ◌∷◌, arith, ◌==◌, eq_iff, Bool-cases, truthy_text,
}
use mathlib.Core.Option.{some-injective}
use usbover_ip.Base.Dict.{Dict, DistinctKeys, lookup, insert, lookup-insert}
use usbover_ip.Server.State.{ClientRecord, Config}
use usbover_ip.Base.Exec.{Exc, Result, ok, err}
use usbover_ip.Web.{compare_digest, matched}
use usbover_ip.Server.Clients.{client_of_token, set_client, set_token, set_found}

compare_digest-eq : (a b : String) → compare_digest a b ≡ ok true → a ≡ b
unfolding compare_digest
compare_digest-eq a b h = ground (arith, eq_iff a b)

filled-eq :
    (token : String) (c : ClientRecord) → token ≡ c.token → truthy_text c.token ≡ true → token ≢ ""
filled-eq token c e filled = ground (arith, eq_iff c.token "")

-- The client has a record with the token, which is not empty.
abbrev pub Owner : String → String → Dict ClientRecord → Type 0
Owner token id d = (c : ClientRecord) × (lookup id d ≡ some c) × (c.token ≡ token) × (token ≢ "")

-- In a dict that has each key once, the client whose token it is has a record with the token, which
-- is not empty.
pub client_of_token_sound :
    (token id : String) (d : Dict ClientRecord)
    → DistinctKeys d
    → client_of_token token d ≡ ok (some id)
    → Owner token id d
unfolding client_of_token lookup matched
client_of_token_sound token id [] k h = cc
client_of_token_sound token id ((i, c) ∷ d) k h =
    let later : client_of_token token d ≡ ok (some id) → Owner token id ((i, c) ∷ d) = λ e.
      let r = client_of_token_sound token id d k.1 e in
      (r.0, ground (arith, eq_iff i id, k.0, r.1), r.2, r.3) in
    elim (Bool-cases (truthy_text c.token)) [
      | inl filled ↦ here later filled (compare_digest token c.token) refl (rw filled at h)
      | inr empty ↦ later (rw empty at h)
    ]
  where
    here :
        (client_of_token token d ≡ ok (some id) → Owner token id ((i, c) ∷ d))
        → truthy_text c.token ≡ true
        → (r : Result Bool) → compare_digest token c.token ≡ r
        → matched i r (client_of_token token d) ≡ ok (some id)
        → Owner token id ((i, c) ∷ d)
    here later filled (ok true) e h =
        let same = compare_digest-eq token c.token e in
        (c, ground (arith, h, eq_iff i id), sym same, filled-eq token c same filled)
    here later filled (ok false) e h = later h
    here later filled (err x) e h = cc

insert-DistinctKeys :
    (k : String) (c : ClientRecord) (d : Dict ClientRecord)
    → DistinctKeys d
    → DistinctKeys (insert k c d)
unfolding insert
insert-DistinctKeys k c [] h = (unfold lookup in refl, tt)
insert-DistinctKeys k c ((i, x) ∷ d) h = elim (Bool-cases (i == k)) [
  | inl same ↦ rw same (ground (arith, eq_iff i k, h.0), h.1)
  | inr differ ↦ rw differ (
    rw lookup-insert (ground (arith, eq_iff i k, eq_iff k i, h.0)),
    insert-DistinctKeys k c d h.1,
  )
]

-- No two clients have one token.
abbrev pub OwnTokens : Dict ClientRecord → Type 0
OwnTokens d =
    (i j : String) (a b : ClientRecord)
    → lookup i d ≡ some a
    → lookup j d ≡ some b
    → a.token ≡ b.token
    → i ≡ j

set_token-found :
    (client_id token : String) (client : ClientRecord) (cfg : Config)
    → lookup client_id cfg.clients ≡ some client
    → (set_token client_id token cfg).clients
      ≡ insert client_id (record client { token = token }) cfg.clients
unfolding set_token set_client set_found
set_token-found client_id token client cfg h = rw h refl

-- Where each client is registered once and has its own token, the token that a client had is
-- nobody's once the client is given another one: the search for it finds nobody, or it raises.
pub set_token-revokes :
    (client_id token : String) (client : ClientRecord) (cfg : Config)
    → DistinctKeys cfg.clients
    → OwnTokens cfg.clients
    → lookup client_id cfg.clients ≡ some client
    → client.token ≢ token
    → (client_of_token client.token (set_token client_id token cfg).clients ≡ ok none)
      ⊎ ((e : Exc) × (client_of_token client.token (set_token client_id token cfg).clients ≡ err e))
set_token-revokes client_id token client cfg keys own h other =
    subst
      (λ d.
        (client_of_token client.token d ≡ ok none)
        ⊎ ((e : Exc) × (client_of_token client.token d ≡ err e)))
      (sym (set_token-found client_id token client cfg h))
      (nobody (client_of_token client.token (insert client_id new cfg.clients)) refl)
  where
    new : ClientRecord
    new = record client { token = token }

    nobody :
        (r : Result (Option String))
        → client_of_token client.token (insert client_id new cfg.clients) ≡ r
        → (r ≡ ok none) ⊎ ((e : Exc) × (r ≡ err e))
    nobody (ok none) e = inl refl
    nobody (err x) e = inr (x, refl)
    nobody (ok (some id)) e =
        let r =
          client_of_token_sound client.token id (insert client_id new cfg.clients)
            (insert-DistinctKeys client_id new cfg.clients keys) e in
        elim (Bool-cases (client_id == id)) [
          | inl same ↦ absurd (
              other (
                sym r.2
                ∙ ap (λ (x : ClientRecord). x.token)
                    (sym (
                      some-injective new r.0
                        (sym (rw same at (lookup-insert client_id id new cfg.clients)) ∙ r.1)))))
          | inr differ ↦
              let there : lookup id cfg.clients ≡ some r.0 =
                sym (rw differ at (lookup-insert client_id id new cfg.clients)) ∙ r.1 in
              let same : client_id ≡ id = own client_id id client r.0 h there (sym r.2) in
              absurd (ground (arith, same, differ, eq_iff client_id id))
        ]
