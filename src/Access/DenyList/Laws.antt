-- ===== src/Access/DenyList/Laws.antt =====
-- How long a revocation lasts.
use usp_cloud_native.Prelude.{
  ℕ, ◌+◌, ◌-◌, ◌≤◌, ◌<◌, Str, str_eq_refl, leb, any, Bool, true, false, none, some, ok, arith, ◌≡◌,
  ◌≢◌, sym, ap, ◌∙◌, inl, inr,
}
use usp_cloud_native.Access.Claims.{Claims}
use usp_cloud_native.Access.ApiKeyAuth.{Request}
use usp_cloud_native.Access.Authenticate.{Config, gateway_claims, or_pass, denied, authenticate}
use usp_cloud_native.Access.Authenticate.Laws.{authenticate-IsTrusted}
use usp_cloud_native.Access.DenyList.{Entries, key_of, lives, set_key, is_revoked, revoke}

-- The key that is set lives until a millisecond before its lifetime ends, or longer.
any-set_key :
    (key : Str) (lifetime set_at at : ℕ) (entries : Entries)
    → at + 1000000 ≤ set_at + lifetime
    → any (lives key at) (set_key key lifetime set_at entries) ≡ true
any-set_key key lifetime set_at at entries h = ground (arith, h, str_eq_refl key)

-- A revocation that succeeds while the token is valid is seen at each time up to a millisecond before the
-- token expires.
pub is_revoked-revoke :
    (lost : Bool) (jti : Str) (expires_at now set_at at : ℕ) (entries : Entries)
    → now < expires_at
    → now ≤ set_at
    → at + 1000000 ≤ expires_at
    → (revoke lost jti expires_at now set_at entries).0 ≡ true
    → is_revoked false (revoke lost jti expires_at now set_at entries).1 jti at ≡ some true
unfolding is_revoked revoke
is_revoked-revoke true jti expires_at now set_at at entries valid later before done =
    absurd (ground (arith, valid, done))
is_revoked-revoke false jti expires_at now set_at at entries valid later before done =
    let e : leb expires_at now ≡ false = ground (arith, valid) in
    rw e (ap some (any-set_key (key_of jti) (expires_at - now) set_at at entries (omega arith)))

-- A token whose revocation, made while it was valid, reached the deny list lets no request in that has no
-- claims yet and not the marks of the gateway, until a millisecond before the token expires, where the
-- middleware has a deny list and each read of it goes through.
pub authenticate-revoke :
    (config : Config) (r r' : Request) (lost : Bool) (jti : Str) (expires_at now set_at at : ℕ)
    (entries : Entries) (c : Claims)
    → r.claims ≡ none
    → gateway_claims r at ≡ none
    → config.revoked
      ≡ some (λ id. is_revoked false (revoke lost jti expires_at now set_at entries).1 id at)
    → now < expires_at
    → now ≤ set_at
    → at + 1000000 ≤ expires_at
    → (revoke lost jti expires_at now set_at entries).0 ≡ true
    → authenticate config r at ≡ ok r'
    → r'.claims ≡ some c
    → c.token_id ≢ jti
authenticate-revoke config r r' lost jti expires_at now set_at at entries c bare unmarked listed
      valid later before done h k =
    elim (authenticate-IsTrusted config r r' at h) [
      | inl (d, e, _) ↦ absurd (ground (arith, e, bare))
      | inr (inl (d, e, _)) ↦ absurd (ground (arith, e, unmarked))
      | inr (inr (d, trusted, same)) ↦ λ named.
          let mine : d ≡ c = ground (arith, k, same) in
          let id : trusted.token.jti ≡ jti =
            ap (λ (x : Claims). x.token_id) (sym trusted.same ∙ mine) ∙ named in
          let seen : denied config.revoked jti ≡ true =
            ap (λ o. denied o jti) listed
            ∙ ap or_pass (
                is_revoked-revoke lost jti expires_at now set_at at entries valid later before
                  done) in
          absurd (ground (arith, seen, id, trusted.allowed, ap (denied config.revoked) id))
    ]
