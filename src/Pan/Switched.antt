-- ===== src/Pan/Switched.antt =====
-- What the method of src/pan_service.c that switches tethering leaves.
use webos_connman_adapter.Base.{
  ◌≡◌, ◌≢◌, refl, ◌⊎◌, inl, inr, Bool, true, not, List, [], ◌∷◌, Option, some, if◌then◌else◌,
  is_some, arith, Option-cases,
}
use webos_connman_adapter.Technology.{Technology}
use webos_connman_adapter.Common.{
  Reply, connman_status_check, bluetooth_technology_status_check, is_bluetooth_tethering,
}
use webos_connman_adapter.Manager.State.{Manager}
use webos_connman_adapter.Manager.Lookup.{
  find_technology, connman_manager_find_bluetooth_technology,
}
use webos_connman_adapter.Connection.State.{Remote}
use webos_connman_adapter.Pan.Tethering.{
  Answer, connman_technology_set_powered, connman_technology_set_tethering, write_bluetooth,
  set_bluetooth_tethering, handle_pan_set_tethering_command,
}

-- A technology that is found by its type is found again after a write that keeps the type.
find-write :
    (t u : Technology) (ts : List Technology)
    → find_technology (some "bluetooth") ts ≡ some t
    → u.type ≡ t.type
    → find_technology (some "bluetooth") (write_bluetooth u ts) ≡ some u
unfolding find_technology
find-write t u [] e h = ground (arith, e)
find-write t u (v ∷ ts) e h = ground (arith, e, h, find-write t u ts)

set_bluetooth_tethering-tethering :
    (r : Remote) (power answer : Answer) (state : Bool) (m m' : Manager) (ok : Bool)
    → set_bluetooth_tethering r power answer state m ≡ some (ok, m')
    → is_bluetooth_tethering (some m') ≡ (if ok then state else is_bluetooth_tethering (some m))
unfolding set_bluetooth_tethering is_bluetooth_tethering connman_manager_find_bluetooth_technology
    connman_technology_set_powered connman_technology_set_tethering
set_bluetooth_tethering-tethering r power answer state m m' ok e =
    elim (Option-cases (find_technology (some "bluetooth") m.technologies)) [
      | inl f ↦ ground (arith, e, f)
      | inr (t, f) ↦ ground (
        arith,
        e,
        f,
        find-write t t m.technologies f refl,
        find-write t (record t { powered = true }) m.technologies f refl,
        find-write t (record t { tethering = state }) m.technologies f refl,
        find-write t (record t { powered = true; tethering = state }) m.technologies f refl,
      )
    ]

-- With a manager: where `handle_pan_set_tethering_command` replies with success, tethering is as it
-- was asked for, and was not before; where it replies with an error, tethering is as before.
pub handle_pan_set_tethering_command_lem :
    (r : Remote) (power answer : Answer) (enabled : Bool) (m : Manager) (reply : Reply)
    (o : Option Manager)
    → handle_pan_set_tethering_command r power answer enabled (some m) ≡ some (reply, o)
    → ((reply ≡ Reply.success)
        × (is_bluetooth_tethering o ≡ enabled)
        × (is_bluetooth_tethering (some m) ≡ not enabled))
      ⊎ ((reply ≢ Reply.success) × (is_bluetooth_tethering o ≡ is_bluetooth_tethering (some m)))
unfolding handle_pan_set_tethering_command connman_status_check bluetooth_technology_status_check
handle_pan_set_tethering_command_lem r power answer enabled m reply o e =
    elim (Option-cases (set_bluetooth_tethering r power answer enabled m)) [
      | inl f ↦ ground (arith, e, f)
      | inr ((ok, m'), f) ↦
          ground (arith, e, f, set_bluetooth_tethering-tethering r power answer enabled m m' ok f)
    ]

-- The method answers, but where the technology has no power and connman cannot give it.
handle_pan_set_tethering_command-some :
    (r : Remote) (power answer : Answer) (enabled : Bool) (m : Manager)
    → power ≢ Answer.not_supported
    → is_some (handle_pan_set_tethering_command r power answer enabled (some m)) ≡ true
unfolding handle_pan_set_tethering_command set_bluetooth_tethering connman_technology_set_powered
handle_pan_set_tethering_command-some r power answer enabled m h = ground (arith, h)
