-- ===== src/Setting/RoundTrip.antt =====
-- What is stored can be loaded: `store_wifi_setting` followed by `load_wifi_setting`.
use mathlib.Core.List.{append_assoc, append-nil}
use webos_connman_adapter.Base.{
  ◌≡◌, refl, sym, ap, ◌∙◌, true, false, inl, inr, List, [], ◌∷◌, ◌++◌, map, Option, none, some,
  is_some, if◌then◌else◌, Bytes, Option-cases, arith,
}
use webos_connman_adapter.Platform.{
  Json, Fields, member, items_of, list_of, jobject_get, Platform, Documented,
}
use webos_connman_adapter.Profile.State.{Profile, State, profiles_in_order}
use webos_connman_adapter.Profile.Distinct.{Distinct, address_of, profiles_in_order_lem}
use webos_connman_adapter.Profile.Ops.{create_new_profile}
use webos_connman_adapter.Setting.Cipher.{
  prefs_id, wifi_setting_encrypt, wifi_setting_decrypt, decrypt-encrypt,
}
use webos_connman_adapter.Setting.Store.{
  add_wifi_profile, jstring_create, encode_profile, add_wifi_profile_list, store_wifi_setting,
}
use webos_connman_adapter.Setting.Networks.{
  networks, IsLoadable, is_new-networks, create_new_profile-networks,
}
use webos_connman_adapter.Setting.Load.{
  until_null, is_new, string_member, boolean_member, security_member, populate_from,
  populate_wifi_profile, populate_all, load_profile_list, load_wifi_setting,
}

module _ (p : Platform) (d : Documented p) where
  until_null-texts :
      (ss : List Bytes)
      → until_null (map p.jstring_get (list_of (items_of (map Json.text ss)))) ≡ ss
  until_null-texts [] = refl
  until_null-texts (s ∷ ss) = rw (d.jstring_get-text) (ap (λ r. s ∷ r) (until_null-texts ss))

  -- The members of the stored object, for each shape that it has.
  members :
      (q : Profile) (sec : Option (List Bytes))
      → q.security ≡ sec
      → (string_member p "ssid" (add_wifi_profile q) ≡ some q.ssid)
        × (boolean_member p "wasCreatedWithJoinOther" (add_wifi_profile q) ≡ q.hidden)
        × (boolean_member p "configured" (add_wifi_profile q) ≡ q.configured)
        × (security_member p (add_wifi_profile q) ≡ sec)
  unfolding add_wifi_profile
  members q none e = ground (arith, d.jstring_get-text q.ssid, d.jboolean_get-boolean true false)
  members q (some ss) e = ground (
    arith,
    d.jstring_get-text q.ssid,
    d.jboolean_get-boolean true false,
    d.jarray_items-arr (items_of (map Json.text ss)),
    until_null-texts ss,
  )

  has_ssid : (q : Profile) → is_some (jobject_get "ssid" (add_wifi_profile q)) ≡ true
  unfolding add_wifi_profile
  has_ssid q = refl

  -- The encrypted text comes back through its JSON string.
  decrypt_stored :
      (j : Json) (enc : Option Bytes)
      → wifi_setting_encrypt p (some (p.to_string j)) prefs_id ≡ enc
      → wifi_setting_decrypt p (p.jstring_get (jstring_create p enc)) prefs_id
        ≡ some (p.to_string j)
  unfolding wifi_setting_decrypt
  decrypt_stored j enc e = elim (Option-cases enc) [
    | inl none_e ↦
        absurd (no_cipher (ap (λ c. wifi_setting_decrypt p c prefs_id) (sym (e ∙ none_e)) ∙ back))
    | inr (c, some_e) ↦ rw some_e (
        rw (d.jstring_get-text)
          (ap (λ x. wifi_setting_decrypt p x prefs_id) (sym (e ∙ some_e)) ∙ back))
  ]
    where
      back :
          wifi_setting_decrypt p (wifi_setting_encrypt p (some (p.to_string j)) prefs_id) prefs_id
          ≡ some (p.to_string j)
      back =
          decrypt-encrypt p (p.to_string j) prefs_id d (d.to_string-IsText j) (d.to_string-ne j)
            (λ x. cc)

      no_cipher : wifi_setting_decrypt p none prefs_id ≡ some (p.to_string j) → ⊥
      no_cipher x = ground arith

  -- A stored profile is created again, unless one stands for its network already.
  populate-encode :
      (q : Profile) (s : State p.Prefs)
      → populate_wifi_profile p (encode_profile p q) s ≡ (
        true,
        if is_new (some q.ssid) q.security s.wifi_profile_list
            then (create_new_profile p (some q.ssid) q.security q.hidden q.configured s).1
            else s,
      )
  unfolding populate_wifi_profile encode_profile populate_from
  populate-encode q s =
      let j = add_wifi_profile q in
      let (ssid_e, hidden_e, configured_e, security_e) = members q q.security refl in
      rw (decrypt_stored j _ refl, populate_wifi_profile)
        (simp (d.schema, d.parse-to_string)
          (rw (ssid_e, hidden_e, configured_e, security_e, has_ssid q)))

  populate_all-encode :
      (qs before : List Profile) (s : State p.Prefs)
      → networks s.wifi_profile_list ≡ networks before
      → IsLoadable before qs
      → ((populate_all p (map (encode_profile p) qs) s).0 ≡ true)
        × (networks (populate_all p (map (encode_profile p) qs) s).1.wifi_profile_list
            ≡ networks (before ++ qs))
  unfolding populate_all
  populate_all-encode [] before s e l = (refl, e ∙ ap networks (sym (append-nil before)))
  populate_all-encode (q ∷ qs) before s e l =
      let fresh = is_new-networks q.ssid q.security s.wifi_profile_list before e ∙ l.0 in
      let s' = (create_new_profile p (some q.ssid) q.security q.hidden q.configured s).1 in
      let (ok, ns) =
        populate_all-encode qs (before ++ q ∷ []) s' (create_new_profile-networks p q s before e)
          l.1 in
      rw (populate-encode q s, populate_all, fresh)
        (ok, ns ∙ ap networks (append_assoc before (q ∷ []) qs))

  list_of-items_of : (js : List Json) → list_of (items_of js) ≡ js
  list_of-items_of [] = refl
  list_of-items_of (j ∷ js) = ap (λ r. j ∷ r) (list_of-items_of js)

  document : List Profile → Json
  document qs =
      Json.obj (member "profileList" (Json.arr (items_of (map (encode_profile p) qs))) Fields.end)

  -- A list that is stored successfully is not empty, and its document is what can be copied.
  store-copy :
      (s : State p.Prefs)
      → (store_wifi_setting p s).0 ≡ true
      → p.copy_value (store_wifi_setting p s).1.prefs
        ≡ some (p.to_string (document (profiles_in_order s.wifi_profile_list)))
  unfolding store_wifi_setting add_wifi_profile_list document
  store-copy s ok =
      let text = p.to_string (document (profiles_in_order s.wifi_profile_list)) in
      ground (arith, d.schema, d.copy_value-set_value text (p.remove_value s.prefs).1)

  load-document :
      (qs : List Profile) (t : State p.Prefs)
      → p.get_handle t.prefs ≡ true
      → p.copy_value t.prefs ≡ some (p.to_string (document qs))
      → load_wifi_setting p t ≡ populate_all p (map (encode_profile p) qs) t
  unfolding load_wifi_setting document load_profile_list
  load-document qs t h e = simp (h, e, d.schema, d.parse-to_string, list_of-items_of)

-- With libraries that do what is documented, a profile list that `store_wifi_setting` reports as
-- stored, with distinct pointers and with no profile that stands for the network of a later one,
-- is loaded completely by `load_wifi_setting` into an empty list over the same preferences, where
-- these can be opened: it succeeds, with the same ssids, hidden flags, security lists and
-- configured flags in the same order.
pub load-store :
    (p : Platform) (s t : State p.Prefs)
    → Documented p
    → (store_wifi_setting p s).0 ≡ true
    → Distinct address_of s.wifi_profile_list
    → IsLoadable [] s.wifi_profile_list
    → t.wifi_profile_list ≡ []
    → t.prefs ≡ (store_wifi_setting p s).1.prefs
    → p.get_handle t.prefs ≡ true
    → ((load_wifi_setting p t).0 ≡ true)
      × (networks (load_wifi_setting p t).1.wifi_profile_list ≡ networks s.wifi_profile_list)
load-store p s t d ok distinct loadable empty same h =
    let walk = profiles_in_order_lem s.wifi_profile_list distinct in
    let copied =
      ap p.copy_value same
      ∙ store-copy p d s ok
      ∙ ap (λ qs. some (p.to_string (document p d qs))) walk in
    rw (load-document p d s.wifi_profile_list t h copied)
      (populate_all-encode p d s.wifi_profile_list [] t (ap networks empty) loadable)
