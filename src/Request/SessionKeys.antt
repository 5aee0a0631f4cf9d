-- ===== src/Request/SessionKeys.antt =====
-- internal/engine/engine.go: the keys that sessions are stored under.
use Prim.Native.Char.{Char}
use Prim.Native.String.{◌++◌, [] as empty, ◌∷◌ as str_cons}
use Prim.Native.String.append
use mock_agents.Prelude.{String, ◌≡◌, refl, sym, ap, ◌∙◌}
use text.Mathlib.TextLemmas.{head-eq_of_cons-eq, tail-eq_of_cons-eq}

abbrev nul : Char
nul = "\0"

-- `\x00`
unfoldable pub scoped_session_key : String → String → String → String
scoped_session_key tenant agent session = tenant ++ "\0" ++ agent ++ "\0" ++ session

abbrev pub NoNul : String → Type 0
NoNul empty = Unit
NoNul (str_cons c s) = (c ≡ nul → ⊥) × NoNul s

-- The text before the first NUL, and what follows it.
cut :
    (s t x y : String)
    → NoNul s
    → NoNul t
    → s ++ str_cons nul x ≡ t ++ str_cons nul y
    → (s ≡ t) × (x ≡ y)
cut empty empty x y n m h =
    (refl, tail-eq_of_cons-eq (sym (append.nil (str_cons nul x)) ∙ h ∙ append.nil (str_cons nul y)))
cut empty (str_cons d t) x y n m h = absurd (
    m.0 (
      sym (
        head-eq_of_cons-eq
          (sym (append.nil (str_cons nul x)) ∙ h ∙ append.cons d t (str_cons nul y)))))
cut (str_cons c s) empty x y n m h = absurd (
    n.0 (
      head-eq_of_cons-eq
        (sym (append.cons c s (str_cons nul x)) ∙ h ∙ append.nil (str_cons nul y))))
cut (str_cons c s) (str_cons d t) x y n m h =
    let e = sym (append.cons c s (str_cons nul x)) ∙ h ∙ append.cons d t (str_cons nul y) in
    let rest = cut s t x y n.1 m.1 (tail-eq_of_cons-eq e) in
    (ap (λ z. str_cons z s) (head-eq_of_cons-eq e) ∙ ap (λ z. str_cons d z) rest.0, rest.1)

nul_first : (x : String) → "\0" ++ x ≡ str_cons nul x
nul_first x = append.cons nul empty x ∙ ap (λ y. str_cons nul y) (append.nil x)

key_parts : (s x : String) → s ++ "\0" ++ x ≡ s ++ str_cons nul x
key_parts s x = ap (λ y. s ++ y) (nul_first x)

-- Session keys are equal only for the same tenant, when tenant ids have no NUL, whatever the agent
-- names and the session ids are; and, when the agent names have none either, only for the same
-- agent and session id.
pub scoped_session_key_lem :
    (tenant other agent agent' session session' : String)
    → NoNul tenant
    → NoNul other
    → scoped_session_key tenant agent session ≡ scoped_session_key other agent' session'
    → (tenant ≡ other) × (NoNul agent → NoNul agent' → (agent ≡ agent') × (session ≡ session'))
unfolding scoped_session_key
scoped_session_key_lem tenant other agent agent' session session' n m h =
    let first = cut tenant other (agent ++ "\0" ++ session) (agent' ++ "\0" ++ session') n m (
      sym (key_parts tenant (agent ++ "\0" ++ session))
      ∙ h
      ∙ key_parts other (agent' ++ "\0" ++ session')) in
    (
      first.0,
      (λ p q.
          cut agent agent' session session' p q
            (sym (key_parts agent session) ∙ first.1 ∙ key_parts agent' session')),
    )
