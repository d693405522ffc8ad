-- ===== src/Router/Modes/Settings.antt =====
-- Setting the mode and the forced failures, and reading them back.
use intelli_route_team.Common.{
  ◌≡◌, ◌⊎◌, subst, refl, inl, inr, Bool, true, false, not, ◌&&◌, none, some, List, [], ◌∷◌, arith,
  Text, text_eq, text_beq_iff, ◌==◌, any_by, All, if◌then◌else◌, Bool-cases,
}
use intelli_route_team.Common.Dict.{lookup-insert, lookup-erase}
use intelli_route_team.Router.Fallback.{provider_key}
use intelli_route_team.Router.Modes.{
  Modes, supported_modes, is_supported, is_empty, mode_of, get_routing_mode, set_routing_mode,
  set_provider_force_failed, is_provider_force_failed,
}

-- Each supported mode stays as it is when it is normalised.
fixed_by :
    (ms : List Text) (mode : Text)
    → All (λ m. mode_of m ≡ m) ms
    → any_by (λ m. m == mode) ms ≡ true
    → mode_of mode ≡ mode
fixed_by [] mode a h = absurd (ground (arith, h))
fixed_by (m ∷ ms) mode a h = elim (Bool-cases (m == mode)) [
  | inl e ↦ subst (λ k. mode_of k ≡ k) ((text_beq_iff m mode).0 e) a.0
  | inr e ↦ fixed_by ms mode a.1 (ground (arith, h, e))
]

mode_of-supported : (mode : Text) → is_supported mode ≡ true → mode_of mode ≡ mode
mode_of-supported mode h =
    fixed_by supported_modes mode (refl, (refl, (refl, (refl, (refl, tt))))) h

-- Setting a mode either fails, and then the given mode, stripped and in lower case, is not one of the
-- five supported, or it succeeds, and then that is the mode that is read back.
pub set_routing_mode-get :
    (mode : Text) (s : Modes)
    → ((set_routing_mode mode s ≡ none) × (is_supported (mode_of mode) ≡ false))
      ⊎ ((after : Modes) × ((set_routing_mode mode s ≡ some after)
            × (get_routing_mode after ≡ mode_of mode)))
unfolding set_routing_mode get_routing_mode
set_routing_mode-get mode s = elim (Bool-cases (is_supported (mode_of mode))) [
  | inl e ↦ inr (
    record s { routing_mode = mode_of mode },
    (rw e refl, rw (mode_of-supported (mode_of mode) e, e) refl),
  )
  | inr e ↦ inl (rw e refl, e)
]

-- After the flag of a provider is set to `fail`, it reads as `fail` for every name with the same
-- key, that is the same stripped name in lower case, and as before for every other; a name without
-- a key sets nothing.
pub set_provider_force_failed-read :
    (name other : Text) (fail : Bool) (s : Modes)
    → is_provider_force_failed other (set_provider_force_failed name fail s) ≡ (
        if (provider_key name == provider_key other) && not (is_empty (provider_key name))
        then fail
        else is_provider_force_failed other s)
unfolding set_provider_force_failed is_provider_force_failed
set_provider_force_failed-read name other fail s = ground (
  arith,
  lookup-insert (provider_key name) (provider_key other) true s.forced_failures,
  lookup-erase (provider_key name) (provider_key other) s.forced_failures,
)
