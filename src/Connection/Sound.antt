-- ===== src/Connection/Sound.antt =====
-- The dictionaries that src/connman_service.c sends hold valid addresses.
use webos_connman_adapter.Base.{
  ◌≡◌, ◌⊎◌, inl, inr, Bool, true, ◌&&◌, List, [], ◌∷◌, ◌++◌, Option, none, some, leb, All,
  All-append, Bytes, bytes_eq, codes, Bool-cases, arith, String, bytes_eq_refl,
}
use webos_connman_adapter.Common.{is_valid_ipv6address, is_valid_ipaddress}
use webos_connman_adapter.Service.Info.{ℤ, pos, negsuc, Ipv4Info, Ipv6Info}
use webos_connman_adapter.Connection.Setters.{
  Value, Setting, Host, passes, all_pass, entry, prefix_entry, ipv4_dictionary, ipv6_dictionary,
}
use webos_connman_adapter.Connection.Handlers.{valid_server}

-- The entry is the method, a valid address, or a prefix length of at most 128.
abbrev pub SoundEntry : (Bytes → Bool) → Bytes × Value → Type 0
SoundEntry valid (key, Value.string v) = (bytes_eq key (codes "Method") ≡ true) ⊎ (valid v ≡ true)
SoundEntry valid (key, Value.byte n) = leb n 128 ≡ true
SoundEntry valid (key, Value.strings vs) = ⊥

-- The addresses of a setting are valid. Proxies are sent as they are given.
abbrev pub Sound : Host → Setting → Type 0
Sound h (Setting.ipv4 d) = All (SoundEntry (is_valid_ipaddress h.inet_pton6 h.inet_pton4)) d
Sound h (Setting.ipv6 d) = All (SoundEntry (is_valid_ipv6address h.inet_pton6 h.inet_pton4)) d
Sound h (Setting.nameservers ds) = All (λ a. valid_server h a ≡ true) ds
Sound h (Setting.proxy d) = Unit

method-Sound : (valid : Bytes → Bool) (v : Option Bytes) → All (SoundEntry valid) (entry "Method" v)
method-Sound valid none = tt
method-Sound valid (some v) = (inl (bytes_eq_refl (codes "Method")), tt)

entry-Sound :
    (valid : Bytes → Bool) (key : String) (v : Option Bytes)
    → passes valid v ≡ true
    → All (SoundEntry valid) (entry key v)
entry-Sound valid key none e = tt
entry-Sound valid key (some v) e = (inr e, tt)

prefix-Sound : (valid : Bytes → Bool) (n : ℤ) → All (SoundEntry valid) (prefix_entry n)
prefix-Sound valid (pos n) = elim (Bool-cases (leb n 128)) [
  | inl e ↦ rw e (e, tt)
  | inr e ↦ rw e tt
]
prefix-Sound valid (negsuc n) = tt

pub ipv4_dictionary-Sound :
    (valid : Bytes → Bool) (i : Ipv4Info)
    → passes valid i.address && passes valid i.netmask && passes valid i.gateway ≡ true
    → All (SoundEntry valid) (ipv4_dictionary i)
unfolding ipv4_dictionary
ipv4_dictionary-Sound valid i e =
    let P = SoundEntry valid in
    let a = entry "Address" i.address in
    let n = entry "Netmask" i.netmask in
    let g = entry "Gateway" i.gateway in
    let t : passes valid i.address ≡ true = ground arith in
    let u : passes valid i.netmask ≡ true = ground arith in
    let w : passes valid i.gateway ≡ true = ground arith in
    All-append P (entry "Method" i.method) (a ++ (n ++ g)) (method-Sound valid i.method) (
      All-append P a (n ++ g) (entry-Sound valid "Address" i.address t) (
        All-append P n g (entry-Sound valid "Netmask" i.netmask u)
          (entry-Sound valid "Gateway" i.gateway w)))

pub ipv6_dictionary-Sound :
    (valid : Bytes → Bool) (i : Ipv6Info)
    → passes valid i.address && passes valid i.gateway ≡ true
    → All (SoundEntry valid) (ipv6_dictionary i)
unfolding ipv6_dictionary
ipv6_dictionary-Sound valid i e =
    let P = SoundEntry valid in
    let a = entry "Address" i.address in
    let n = prefix_entry i.prefix_length in
    let g = entry "Gateway" i.gateway in
    let t : passes valid i.address ≡ true = ground arith in
    let w : passes valid i.gateway ≡ true = ground arith in
    All-append P (entry "Method" i.method) (a ++ (n ++ g)) (method-Sound valid i.method) (
      All-append P a (n ++ g) (entry-Sound valid "Address" i.address t) (
        All-append P n g (prefix-Sound valid i.prefix_length)
          (entry-Sound valid "Gateway" i.gateway w)))

pub all_pass-All :
    (valid : Bytes → Bool) (ds : List Bytes)
    → all_pass valid ds ≡ true
    → All (λ a. valid a ≡ true) ds
all_pass-All valid [] e = tt
all_pass-All valid (d ∷ ds) e = ground (arith, all_pass-All valid ds)
