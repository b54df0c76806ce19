-- ===== src/Storage/Tokens.antt =====
-- storage.go: the list of revoked tokens.
use ruptura.Base.{
  ◌≡◌, refl, sym, ap, ◌∙◌, true, false, ◌++◌, length, nat_beq, Bool-cases, inl, inr, Duration, ◌==◌,
  ==_iff, if◌then◌else◌, ◌<◌, arith,
}
use ruptura.Storage.{Bytes, bytes_eq, Database, Json, IsLawful, IsFaithful, ok, get, set}
use ruptura.Storage.Records.{rev_tag, revoke_token, is_token_revoked}
use ruptura.Storage.Writes.{find-set, get-set}

module _ (B : Database) (json : Json Unit) where
  -- RevokeToken of a named token with a positive time to live, where it succeeds, makes this token
  -- revoked and leaves every other one as it was.
  pub is_token_revoked-revoke_token :
      (jti other : Bytes) (ttl : Duration) (s after_revoke : B.State)
      → IsLawful B
      → IsFaithful json
      → 0 < length jti
      → 0 < ttl
      → revoke_token B json jti ttl s ≡ ok after_revoke
      → is_token_revoked B json other after_revoke
        ≡ (if jti == other then true else is_token_revoked B json other s)
  unfolding revoke_token is_token_revoked get
  is_token_revoked-revoke_token jti other ttl s t law faithful named lives done =
      let some_name : nat_beq (length jti) 0 ≡ false = ground arith in
      let some_time : nat_beq ttl 0 ≡ false = ground arith in
      let stored : set B json (rev_tag ++ jti) tt ttl s ≡ ok t =
        rw (revoke_token, some_name, some_time) at done in
      let (text, encoded, after) = find-set B json (rev_tag ++ jti) tt ttl s t law stored in
      elim (Bool-cases (jti == other)) [
        | inl same ↦
            let e : jti ≡ other = (==_iff jti other).0 same in
            let here = get-set B json (rev_tag ++ jti) tt ttl s t law faithful stored in
            let there : get B json (rev_tag ++ other) t ≡ ok tt =
              ap (λ j. get B json (rev_tag ++ j) t) (sym e) ∙ here in
            rw (is_token_revoked, same, there) refl
        | inr apart ↦
            let before : B.find t (rev_tag ++ other) ≡ B.find s (rev_tag ++ other) =
              rw apart at (after (rev_tag ++ other)) in
            rw (is_token_revoked, apart, get, before) refl
      ]
