-- ===== src/Proxy/Whitelist.antt =====
-- gpu-proxy-cpp/src/worker_manager.cpp with main.cpp: which names the configuration lets in.
use compute_market.Base.{
  ℕ, ◌≡◌, refl, true, List, [], ◌∷◌, ◌⊎◌, inl, inr, ◌↔◌, arith, Any, Bool-cases, if◌then◌else◌, ap,
  ◌∙◌, sym,
}
use compute_market.Base.Text.{Text, text_eq, text_eq→eq, text_eq_refl}
use compute_market.Platform.{Platform}
use compute_market.World.{WorkerConfig}
use compute_market.WorkerManager.Jobs.{in_configs, is_worker_allowed, allowed}
use compute_market.Proxy.{new_worker_manager}

listed : (id : Text) (cs : List WorkerConfig) → in_configs id cs ≡ true → Any (λ c. c.id ≡ id) cs
unfolding in_configs
listed id [] h = cc
listed id (c ∷ cs) h = elim (Bool-cases (text_eq c.id id)) [
  | inl e ↦ inl (text_eq→eq c.id id e)
  | inr e ↦ inr (listed id cs (sym (ap (λ b. if b then true else in_configs id cs) e) ∙ h))
]

in_configs_of_listed :
    (id : Text) (cs : List WorkerConfig) → Any (λ c. c.id ≡ id) cs → in_configs id cs ≡ true
unfolding in_configs
in_configs_of_listed id [] h = absurd h
in_configs_of_listed id (c ∷ cs) (inl e) = rw (e, text_eq_refl id)
in_configs_of_listed id (c ∷ cs) (inr h) = ground (arith, in_configs_of_listed id cs h)

module _ ⦃p : Platform⦄ where
  -- A proxy that is made with a list of workers lets a name in just if the list is empty or has an entry
  -- of that name; passwords are not compared.
  pub allowed-new_worker_manager :
      (port : ℕ) (configs : List WorkerConfig) (id : Text)
      → (allowed (new_worker_manager port configs) id ≡ true)
        ↔ ((configs ≡ []) ⊎ Any (λ c. c.id ≡ id) configs)
  unfolding allowed is_worker_allowed new_worker_manager
  allowed-new_worker_manager port [] id = (λ h. inl refl, λ h. refl)
  allowed-new_worker_manager port (c ∷ cs) id = (
    λ h. inr (listed id (c ∷ cs) h),
    λ h. elim h [ inl e ↦ cc | inr a ↦ in_configs_of_listed id (c ∷ cs) a ],
  )
