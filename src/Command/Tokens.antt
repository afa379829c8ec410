-- ===== src/Command/Tokens.antt =====
-- Names that are joined by ":" are the tokens of the text.
use Prim.Native.String.{String, [] as nil, ◌∷◌ as ◌◁◌, ◌++◌ as ◌<>◌}
use Prim.Native.String.append
use text.Mathlib.TextLemmas.{append-nil, append_assoc}
use Prim.Native.Char.{Char, code}
use dumpbin_py_zfs_rescue.Common.{[], ◌∷◌, List, ◌≡◌, ◌≢◌, refl, ap, ◌∙◌, sym, ne→==}
use mathlib.Core.Path.{ap₂}
use dumpbin_py_zfs_rescue.Command.Parse.{strtok, flush}

-- No character of the text is ":".
pub data NoColon : String → Type 0 where
  done : NoColon nil
  char : {c : Char} {s : String} → code c ≢ 58 → NoColon s → NoColon (c ◁ s)

-- A name of a device: not empty, and with no ":".
pub record IsName (s : String) : Type 0 where
  pub some_char : s ≢ nil
  pub no_colon : NoColon s

pub data AreNames : List String → Type 0 where
  none_left : AreNames []
  name : {s : String} {names : List String} → IsName s → AreNames names → AreNames (s ∷ names)

-- The names with ":" between them.
abbrev pub join : List String → String
join [] = nil
join (s ∷ []) = s
join (s ∷ (t ∷ names)) = s <> (":" <> join (t ∷ names))

strtok-char :
    (c : Char) (s token : String)
    → code c ≢ 58
    → strtok (c ◁ s) token ≡ strtok s (token <> (c ◁ nil))
unfolding strtok
strtok-char c s token ne = rw (strtok, ne→== (code c) 58 ne) refl

-- What has no ":" goes to the token.
strtok-append : (r s token : String) → NoColon r → strtok (r <> s) token ≡ strtok s (token <> r)
strtok-append nil s token h = ap₂ strtok (append.nil s) (sym (append-nil token))
strtok-append (c ◁ r) s token (char ne h) =
    ap (λ t. strtok t token) (append.cons c r s)
    ∙ strtok-char c (r <> s) token ne
    ∙ strtok-append r s (token <> (c ◁ nil)) h
    ∙ ap (strtok s) (
        append_assoc token (c ◁ nil) r
        ∙ ap (λ t. token <> t) (append.cons c nil r ∙ ap (λ t. c ◁ t) (append.nil r)))

-- A name is the next token.
strtok_name : (s rest : String) → IsName s → strtok (s <> rest) nil ≡ strtok rest s
strtok_name s rest h = strtok-append s rest nil h.no_colon ∙ ap (strtok rest) (append.nil s)

flush_name : (s : String) (names : List String) → s ≢ nil → flush s names ≡ s ∷ names
unfolding flush
flush_name nil names ne = absurd (ne refl)
flush_name (c ◁ s) names ne = refl

strtok-colon : (s token : String) → strtok (":" <> s) token ≡ flush token (strtok s nil)
unfolding strtok
strtok-colon s token =
    let colon : Char = ":" in
    ap (λ t. strtok t token) (append.cons colon nil s ∙ ap (λ t. colon ◁ t) (append.nil s))

-- `strtok` of any number of names with ":" between them gives the names.
pub strtok-join : (names : List String) → AreNames names → strtok (join names) nil ≡ names
unfolding strtok
strtok-join [] h = refl
strtok-join (s ∷ []) (name h hs) =
    ap (λ t. strtok t nil) (sym (append-nil s)) ∙ strtok_name s nil h ∙ flush_name s [] h.some_char
strtok-join (s ∷ (t ∷ names)) (name h hs) =
    strtok_name s (":" <> join (t ∷ names)) h
    ∙ strtok-colon (join (t ∷ names)) s
    ∙ ap (flush s) (strtok-join (t ∷ names) hs)
    ∙ flush_name s (t ∷ names) h.some_char
