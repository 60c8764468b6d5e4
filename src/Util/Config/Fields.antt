-- ===== src/Util/Config/Fields.antt =====
-- What each field of a loaded configuration is.
use model_lib.Prelude.{Option, none, some, List, [], ◌∷◌, if◌then◌else◌}
use model_lib.Prelude.Int.{ℤ}
use model_lib.Prelude.Text.{ByteString}
use model_lib.Util.Config.{Json, Config, string_or, int_or}

module _ (J : Json) where
  -- The member that the keys lead to, through objects.
  abbrev pub member : J.Value → List ByteString → Option J.Value
  member v [] = some v
  member v (k ∷ ks) =
      if J.is_object v then (elim (J.index v k) [ none ↦ none | some w ↦ member w ks ]) else none

  abbrev string_of : Option J.Value → ByteString → ByteString
  string_of none old = old
  string_of (some v) old = string_or J v old

  abbrev int_of : Option J.Value → ℤ → ℤ
  int_of none old = old
  int_of (some v) old = int_or J v old

  -- The string, or the number, that the keys lead to, or else `old`.
  unfoldable pub string_at : J.Value → List ByteString → ByteString → ByteString
  string_at v ks old = string_of (member v ks) old

  unfoldable pub int_at : J.Value → List ByteString → ℤ → ℤ
  int_at v ks old = int_of (member v ks) old
