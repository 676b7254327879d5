-- ===== src/Text.antt =====
-- The texts of the program: the state keys of a pipeline (control/command.cpp,
-- control/pipeline_reconciler.cpp), which are absolute paths.
use Prim.Native.Char.{code}
use Prim.Native.String.{◌++◌}
use eavp.Base.{
  ◌≡◌, sym, ap, ◌∙◌, Bool, false, true, String, ◌==◌, str_eq, eq_iff, ◌≢◌, arith, Bool-cases, inl,
  inr,
}
use text.Mathlib.TextLemmas.{append_cancel_left, append_cancel_right, cons-append}

-- `!(key.empty() || key[0] != '/')`.
abbrev pub is_absolute : String → Bool
is_absolute String.[] = false
is_absolute (String.◌∷◌ c s) = code c == b'/'

-- `"/pipelines/" + id + "/state"`.
abbrev pub state_key : String → String
state_key id = ("/pipelines/" ++ id) ++ "/state"

-- `"/pipelines/" + id + "/error"`.
abbrev pub error_key : String → String
error_key id = ("/pipelines/" ++ id) ++ "/error"

pub state_key-is_absolute : (id : String) → is_absolute (state_key id) ≡ true
state_key-is_absolute id =
    ap (λ s. is_absolute (s ++ "/state")) (cons-append "/" "pipelines/" id)
    ∙ ap is_absolute (cons-append "/" ("pipelines/" ++ id) "/state")

pub error_key-is_absolute : (id : String) → is_absolute (error_key id) ≡ true
error_key-is_absolute id =
    ap (λ s. is_absolute (s ++ "/error")) (cons-append "/" "pipelines/" id)
    ∙ ap is_absolute (cons-append "/" ("pipelines/" ++ id) "/error")

pub state_key-injective : (a b : String) → state_key a ≡ state_key b → a ≡ b
state_key-injective a b e =
    append_cancel_left "/pipelines/" a b (append_cancel_right _ _ "/state" e)

keys-differ : (id : String) → state_key id ≢ error_key id
keys-differ id e =
    let h = append_cancel_left ("/pipelines/" ++ id) "/state" "/error" e in
    ground (arith, (eq_iff "/state" "/error").1 h)

not_eq : (a b : String) → a ≢ b → str_eq a b ≡ false
not_eq a b n = elim (Bool-cases (str_eq a b)) [ inl e ↦ absurd (n ((eq_iff a b).0 e)) | inr e ↦ e ]

-- The two keys of a pipeline are different.
pub state_key-error_key : (id : String) → str_eq (state_key id) (error_key id) ≡ false
state_key-error_key id = not_eq (state_key id) (error_key id) (keys-differ id)

pub error_key-state_key : (id : String) → str_eq (error_key id) (state_key id) ≡ false
error_key-state_key id = not_eq (error_key id) (state_key id) (λ e. keys-differ id (sym e))
