-- ===== src/Client/Proxmox/Slots.antt =====
-- Which slot of a virtual machine a device gets.
use usbover_ip.Base.{
  String, ◌≡◌, refl, ◌∙◌, ap, true, false, Option, none, some, List, [], ◌∷◌, arith, eq_refl,
}
use usbover_ip.Base.Lists.{contains}
use usbover_ip.Base.Exec.{Result, ok, err, ◌>>=◌, ok-injective}
use usbover_ip.Outside.{Env}
use usbover_ip.Client.State.{Client}
use usbover_ip.Client.Proxmox.{Lines, first_free, slots, used_usb_slots, chosen, next_free_slot}

-- A slot that is used stands in front of the first free one.
first_free-Free :
    (used all : List String) (slot : String)
    → first_free used all ≡ some slot
    → (contains used slot ≡ false) × (contains all slot ≡ true)
unfolding first_free contains
first_free-Free used [] slot e = cc
first_free-Free used (s ∷ all) slot e = ground (arith, eq_refl slot, first_free-Free used all slot)

module _ ⦃env : Env⦄ (text : Lines) where
  -- A slot that `_next_free_slot` returns is one of usb0 to usb4 and is not among those that
  -- `qm config` listed for this machine right before.
  pub next_free_slot-Free :
      (vmid slot : String) (s : Client env.World)
      → (next_free_slot text vmid s).0 ≡ ok slot
      → (used : List String) × ((used_usb_slots text vmid s).0 ≡ ok used)
        × (contains used slot ≡ false)
        × (contains slots slot ≡ true)
  unfolding next_free_slot chosen ◌>>=◌
  next_free_slot-Free vmid slot s returns = go (used_usb_slots text vmid s).0 refl
    where
      pick :
          (used : List String) (o : Option String) (v : Client env.World)
          → first_free used slots ≡ o
          → (chosen text o v).0 ≡ ok slot
          → first_free used slots ≡ some slot
      pick used none v e c = cc
      pick used (some x) v e c = e ∙ ap some (ok-injective c)

      go :
          (r : Result (List String))
          → (used_usb_slots text vmid s).0 ≡ r
          → (used : List String) × (r ≡ ok used)
            × (contains used slot ≡ false)
            × (contains slots slot ≡ true)
      go (ok used) e =
          let free = first_free-Free used slots slot (
            pick used (first_free used slots) (used_usb_slots text vmid s).1 refl
              (rw e at returns)) in
          (used, refl, free.0, free.1)
      go (err x) e = let f : err x ≡ ok slot = rw e at returns in cc
