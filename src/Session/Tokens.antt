-- ===== src/Session/Tokens.antt =====
-- python/shim-service/src/session/token.py: the text that names a session to its client.
use shim_service.Base.{
  ℕ, ◌≡◌, refl, Option, none, some, List, [], ◌∷◌, ◌>>=◌, if◌then◌else◌, ◌==◌, nat_eq, list_eq,
  arith,
}
use shim_service.Base.Texts.{
  Text, join, split, show, read, Without, split-join, Without-digits, read-zeros-show,
}

-- Texts are lists of code points here; `~` parts them, and `e40` is the mark of a token.
pub record SessionToken : Type 0 where
  pub tenant_id : ℕ
  pub session_id : Text
  pub user_id : Text

abbrev pub tilde : ℕ
tilde = 126

abbrev pub mark : Text
mark = 101 ∷ 52 ∷ 48 ∷ []

-- What four parts of a text are as a token; `none` is the `NotAuthorizedException`.
unfoldable pub of_parts : List Text → Option SessionToken
of_parts (m ∷ tenant ∷ session ∷ user ∷ []) =
    if m == mark
    then (do n ← read tenant; some (record { tenant_id = n; session_id = session; user_id = user }))
    else none
of_parts _ = none

-- The credentials' obfuscation of a text, and what it gives back.
module _ (obfuscate : Text → Text) (clarify : Text → Option Text) where
  unfoldable pub serialize : SessionToken → Text
  serialize t = obfuscate (join tilde (mark ∷ show t.tenant_id ∷ t.session_id ∷ t.user_id ∷ []))

  unfoldable pub deserialize : Text → Option SessionToken
  unfolding of_parts
  deserialize token = do data_ ← clarify token; of_parts (split tilde data_)

  -- Where what was obfuscated is given back, a token whose session and user hold no tilde is read
  -- back as it was.
  pub deserialize-serialize :
      ((t : Text) → clarify (obfuscate t) ≡ some t)
      → (t : SessionToken) → Without tilde t.session_id
      → Without tilde t.user_id
      → deserialize (serialize t) ≡ some t
  unfolding deserialize serialize
  deserialize-serialize back t s u =
      let parts = mark ∷ show t.tenant_id ∷ t.session_id ∷ t.user_id ∷ [] in
      rw
        (
          back (join tilde parts),
          split-join tilde mark (show t.tenant_id ∷ t.session_id ∷ t.user_id ∷ []) (
            (ground arith, (ground arith, (ground arith, tt))),
            (
              Without-digits tilde t.tenant_id t.tenant_id [] (λ k h. ground (arith, h)) tt,
              (s, (u, tt)),
            ),
          ),
          read-zeros-show 0 t.tenant_id,
        )
        refl
