-- ===== src/Net/Bindings.antt =====
-- kernel/net/udp_bindings.cpp: the table of eight UDP ports and their callbacks. A callback and its
-- context are opaque values; `dispatch` returns the entry whose callback it calls.
pub mod Lookup
pub mod Changes
use mathlib.Core.Bool.{false≢true}
use linux95_kernel.Prelude.{
  ℕ, zero, suc, ◌≤◌, ◌<◌, ◌≡◌, ◌≢◌, refl, ap, sym, ◌∙◌, inl, inr, ◌⊎◌, Bool, true, false, ◌&&◌, not,
  Option, none, some, List, [], ◌∷◌, ltb, ◌==◌, if◌then◌else◌, get_or, set, length, length-set,
  replicate, arith, Bool-cases, Option-cases, find_from, find_from-some, find_from-none,
  find_from-hit, find_from-ext,
}
use mathlib.Core.Path.{subst}

-- `none` is the null callback.
pub record Entry (Callback : Type 0) : Type 0 where
  pub in_use : Bool
  pub port : ℕ
  pub callback : Option Callback

-- kMaxUdpBindings
abbrev pub max_udp_bindings : ℕ
max_udp_bindings = 8

module _ {Callback : Type 0} where
  abbrev pub free_entry : Entry Callback
  free_entry = record { in_use = false; port = 0; callback = none }

  abbrev pub entry : List (Entry Callback) → ℕ → Entry Callback
  entry entries i = get_or entries i free_entry

  abbrev pub has_port : List (Entry Callback) → ℕ → ℕ → Bool
  has_port entries port i = (entry entries i).in_use && ((entry entries i).port == port)

  unfoldable pub find_port : List (Entry Callback) → ℕ → Option ℕ
  find_port entries port = find_from max_udp_bindings 0 (has_port entries port)

  unfoldable pub find_unused : List (Entry Callback) → Option ℕ
  find_unused entries = find_from max_udp_bindings 0 (λ i. not (entry entries i).in_use)

  unfoldable pub bind : List (Entry Callback) → ℕ → Option Callback → Bool × List (Entry Callback)
  bind entries port none = (false, entries)
  bind entries port (some callback) =
      if port == 0 then (false, entries) else elim (find_port entries port) [
        | some i ↦ (false, entries)
        | none ↦ elim (find_unused entries) [
          | none ↦ (false, entries)
          | some i ↦ (
            true,
            set entries i (record { in_use = true; port = port; callback = some callback }),
          )
        ]
      ]

  unfoldable pub unbind : List (Entry Callback) → ℕ → Bool × List (Entry Callback)
  unbind entries port = elim (find_port entries port) [
    | none ↦ (false, entries)
    | some i ↦ (true, set entries i free_entry)
  ]

  unfoldable pub dispatch : List (Entry Callback) → ℕ → Option (Option Callback)
  dispatch entries destination_port = elim (find_port entries destination_port) [
    | none ↦ none
    | some i ↦ some (entry entries i).callback
  ]
