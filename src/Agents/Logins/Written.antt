-- ===== src/Agents/Logins/Written.antt =====
-- How sets of logins are written and read: agentctl/src/harness/login.rs.
use digdir_agents.Base.{
  Bool-cases, All, Str, same_text, same_text-IsEquality, Result, err, ok, >>=-eq-ok, ◌≡◌, refl, ap,
  ◌∙◌, ◌≢◌, inl, inr, false, List, [], ◌∷◌, arith,
}
use digdir_agents.Agents.Errors.{Error}
use digdir_agents.Agents.Logins.{
  any_login, same_ignoring_case, named_any, new_login, LoginSet, named, any_stored, one_login,
  among, Declared, one_text, texts, serialize_logins, new_logins, deserialize_logins,
}
use digdir_agents.Authorization.{to_lower}
use mathlib.Core.Path.{subst}

-- The names that `LoginName::new` accepts.
abbrev pub IsLogin : Str → Type 0
IsLogin login = new_login login ≡ ok login

new_login-eq : (value login : Str) → new_login value ≡ ok login → value ≡ login
unfolding new_login
new_login-eq value login h = ground arith

-- A login that is made is one whose name would be accepted again.
new_login-IsLogin : (value login : Str) → new_login value ≡ ok login → IsLogin login
new_login-IsLogin value login h = rw (new_login-eq value login h) at h

any_refused : new_login any_login ≡ err named_any
unfolding new_login same_ignoring_case same_text to_lower
any_refused = refl

-- No login is called `any`.
IsLogin-any : (login : Str) → IsLogin login → same_text login any_login ≡ false
IsLogin-any login h = elim (Bool-cases (same_text login any_login)) [
  | inl same ↦
      let is_any = same_text-IsEquality.0 login any_login same in
      absurd (cc (h, is_any, any_refused))
  | inr other ↦ other
]

ok-value : {A : Type 0} {v w : A} → ◌≡◌ {A = Result Error A} (ok v) (ok w) → v ≡ w
ok-value h = cc

new_logins-IsLogin : (names logins : List Str) → new_logins names ≡ ok logins → All IsLogin logins
unfolding new_logins
new_logins-IsLogin [] [] h = tt
new_logins-IsLogin [] (login ∷ logins) h = absurd (cc h)
new_logins-IsLogin (name ∷ names) logins h =
    let (first, made, h') = >>=-eq-ok (new_login name) _ h in
    let (rest, made_rest, h'') = >>=-eq-ok (new_logins names) _ h' in
    subst (All IsLogin) (ok-value h'')
      (new_login-IsLogin name first made, new_logins-IsLogin names rest made_rest)

new_logins_again : (logins : List Str) → All IsLogin logins → new_logins logins ≡ ok logins
unfolding new_logins
new_logins_again [] h = refl
new_logins_again (login ∷ logins) h = rw (h.0, new_logins_again logins h.1) refl

among-named : (logins : List Str) (set : LoginSet) → among logins ≡ ok set → set ≡ named logins
unfolding among
among-named logins set h = ground arith

among_nothing : (set : LoginSet) → among [] ≢ ok set
unfolding among
among_nothing set h = cc

among_again :
    (logins : List Str) (set : LoginSet)
    → All IsLogin logins
    → among logins ≡ ok set
    → deserialize_logins (serialize_logins set) ≡ ok set
unfolding deserialize_logins serialize_logins one_login
among_again [] set accepted h = absurd (among_nothing set h)
among_again (login ∷ []) set accepted h =
    rw (among-named _ set h, IsLogin-any login accepted.0, accepted.0) refl
among_again (a ∷ b ∷ rest) set accepted h =
    rw (among-named _ set h, new_logins_again (a ∷ b ∷ rest) accepted)
      (h ∙ ap ok (among-named _ set h))

-- A set that is read from a manifest is written in a form that is read as the same set.
pub deserialize_logins-serialize_logins :
    (declared : Declared) (set : LoginSet)
    → deserialize_logins declared ≡ ok set
    → deserialize_logins (serialize_logins set) ≡ ok set
unfolding deserialize_logins serialize_logins one_login
deserialize_logins-serialize_logins (texts names) set h =
    let (logins, made, h') = >>=-eq-ok (new_logins names) _ h in
    among_again logins set (new_logins-IsLogin names logins made) h'
deserialize_logins-serialize_logins (one_text name) set h =
    elim (Bool-cases (same_text name any_login)) [
      | inl is_any ↦
          let same : any_stored ≡ set = ok-value (rw is_any at h) in
          rw (← same, same_text-IsEquality.1 any_login) refl
      | inr other ↦
          let (login, made, h') = >>=-eq-ok (new_login name) _ (rw other at h) in
          let same : one_login login ≡ set = ok-value h' in
          let accepted = new_login-IsLogin name login made in
          rw (← same, IsLogin-any login accepted, accepted) refl
    ]
