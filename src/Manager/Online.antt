-- ===== src/Manager/Online.antt =====
-- `connman_manager_update_state` of src/connman_manager.c: what it leaves alone, and a second call.
use webos_connman_adapter.Base.{
  ◌≡◌, refl, sym, ap, ◌∙◌, ◌⊎◌, inl, inr, List, [], ◌∷◌, Option, none, some, String,
}
use webos_connman_adapter.Manager.State.{Manager}
use webos_connman_adapter.Manager.Connected.{
  ManagerProperty, set_manager_properties, connman_manager_update_state,
}

abbrev last_state : List ManagerProperty → Option String → Option String
last_state [] old = old
last_state (ManagerProperty.state v ∷ qs) old = last_state qs (some v)
last_state (_ ∷ qs) old = last_state qs old

last_state-cases :
    (qs : List ManagerProperty)
    → ((old : Option String) → last_state qs old ≡ old)
      ⊎ ((v : String) × ((old : Option String) → last_state qs old ≡ some v))
last_state-cases [] = inl (λ old. refl)
last_state-cases (ManagerProperty.state v ∷ qs) = elim (last_state-cases qs) [
  | inl kept ↦ inr (v, λ old. kept (some v))
  | inr (w, taken) ↦ inr (w, λ old. taken (some v))
]
last_state-cases (ManagerProperty.offline_mode b ∷ qs) = last_state-cases qs
last_state-cases (ManagerProperty.wol_wowl_mode b ∷ qs) = last_state-cases qs
last_state-cases (ManagerProperty.other ∷ qs) = last_state-cases qs

last_state-twice :
    (qs : List ManagerProperty) (old : Option String)
    → last_state qs (last_state qs old) ≡ last_state qs old
last_state-twice qs old = elim (last_state-cases qs) [
  | inl kept ↦ kept (last_state qs old)
  | inr (v, taken) ↦ taken (last_state qs old) ∙ sym (taken old)
]

-- Only the state and the two flags change.
set_manager_properties_lem :
    (qs : List ManagerProperty) (m : Manager)
    → set_manager_properties qs m ≡ record m {
      state = last_state qs m.state;
      offline = (set_manager_properties qs m).offline;
      wol_wowl = (set_manager_properties qs m).wol_wowl;
    }
unfolding set_manager_properties
set_manager_properties_lem [] m = refl
set_manager_properties_lem (ManagerProperty.state v ∷ qs) m =
    set_manager_properties_lem qs (record m { state = some v })
set_manager_properties_lem (ManagerProperty.offline_mode b ∷ qs) m =
    set_manager_properties_lem qs (record m { offline = b })
set_manager_properties_lem (ManagerProperty.wol_wowl_mode b ∷ qs) m =
    set_manager_properties_lem qs (record m { wol_wowl = b })
set_manager_properties_lem (ManagerProperty.other ∷ qs) m = set_manager_properties_lem qs m

pub update_state_lem :
    (reply : Option (List ManagerProperty)) (m : Manager)
    → let t = connman_manager_update_state reply m in
      t ≡ record m { state = t.state; offline = t.offline; wol_wowl = t.wol_wowl }
unfolding connman_manager_update_state
update_state_lem none m = refl
update_state_lem (some qs) m = rw (set_manager_properties_lem qs m) refl

pub update_state-twice :
    (reply : Option (List ManagerProperty)) (m m' : Manager)
    → m'.state ≡ (connman_manager_update_state reply m).state
    → (connman_manager_update_state reply m').state ≡ (connman_manager_update_state reply m).state
unfolding connman_manager_update_state
update_state-twice none m m' h = h
update_state-twice (some qs) m m' h =
    ap (λ t. t.state) (set_manager_properties_lem qs m')
    ∙ ap (last_state qs) (h ∙ ap (λ t. t.state) (set_manager_properties_lem qs m))
    ∙ last_state-twice qs m.state
    ∙ sym (ap (λ t. t.state) (set_manager_properties_lem qs m))
