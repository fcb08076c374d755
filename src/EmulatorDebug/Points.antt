-- ===== src/EmulatorDebug/Points.antt =====
-- main/src/emulator-debug.cpp: stop points that are added and removed, and runs without any.
use simple_riscv_emulator.Common.{
  ℕ, Bool, true, false, not, ◌&&◌, ◌||◌, List, [], ◌∷◌, Option, ◌==◌, leb, ◌≡◌, ◌≢◌, refl, ap,
  arith,
}
use simple_riscv_emulator.GdbStub.AddrRange.{AddressRange, end_of, range_lt, compare_ranges}
use simple_riscv_emulator.GdbStub.StopPoint.{HwBreakpoint, Watchpoint}
use simple_riscv_emulator.GdbStub.Response.{ok_response}
use simple_riscv_emulator.EmulatorDebug.{
  EmulatorDebug, find_breakpoint, emplace_breakpoint, erase_breakpoint, find_watchpoint,
  emplace_watchpoint, erase_watchpoint,
}
use simple_riscv_emulator.EmulatorDebug.PointHandlers.{
  is_some, handle_add_breakpoint, handle_remove_breakpoint, handle_add_watchpoint,
  handle_remove_watchpoint,
}

find-emplace_breakpoint :
    (key : ℕ) (b : HwBreakpoint) (m : List (ℕ × HwBreakpoint))
    → is_some (find_breakpoint key (emplace_breakpoint key b m)) ≡ true
unfolding find_breakpoint emplace_breakpoint
find-emplace_breakpoint key b [] = ground arith
find-emplace_breakpoint key b ((k, old) ∷ m) = ground (arith, find-emplace_breakpoint key b m)

erase-emplace_breakpoint :
    (key : ℕ) (b : HwBreakpoint) (m : List (ℕ × HwBreakpoint))
    → is_some (find_breakpoint key m) ≡ false
    → erase_breakpoint key (emplace_breakpoint key b m) ≡ m
unfolding find_breakpoint emplace_breakpoint erase_breakpoint
erase-emplace_breakpoint key b [] h = ground arith
erase-emplace_breakpoint key b ((k, old) ∷ m) h = ground (arith, erase-emplace_breakpoint key b m)

-- A hardware breakpoint of 4 bytes that is added at an address without one is acknowledged, and to
-- remove it, which is acknowledged too, gives the state from before.
pub handle_remove_breakpoint-handle_add_breakpoint :
    (e : EmulatorDebug) (address : ℕ) (cond : Option (List ℕ))
    → is_some (find_breakpoint address e.hw_breakpoints) ≡ false
    → ((handle_add_breakpoint e true address 4 cond).1 ≡ ok_response)
      × (handle_remove_breakpoint (handle_add_breakpoint e true address 4 cond).0 true address
          ≡ (e, ok_response))
unfolding handle_add_breakpoint handle_remove_breakpoint
handle_remove_breakpoint-handle_add_breakpoint e address cond h =
    let b : HwBreakpoint = record { address = address; cond = cond } in
    (
      refl,
      rw (find-emplace_breakpoint address b e.hw_breakpoints) (
          ap (λ m. (record e { hw_breakpoints = m }, ok_response))
            (erase-emplace_breakpoint address b e.hw_breakpoints h)),
    )

range_lt_irrefl : (r : AddressRange) → range_lt r r ≡ false
unfolding range_lt compare_ranges
range_lt_irrefl r =
    let same : (leb r.start r.start && leb (end_of r) (end_of r)) ≡ true = ground arith in
    rw same refl

find-emplace_watchpoint :
    (key : AddressRange) (w : Watchpoint) (m : List (AddressRange × Watchpoint))
    → is_some (find_watchpoint key (emplace_watchpoint key w m)) ≡ true
unfolding find_watchpoint emplace_watchpoint
find-emplace_watchpoint key w [] = rw (range_lt_irrefl key) refl
find-emplace_watchpoint key w ((k, old) ∷ m) =
    ground (arith, range_lt_irrefl key, find-emplace_watchpoint key w m)

erase-emplace_watchpoint :
    (key : AddressRange) (w : Watchpoint) (m : List (AddressRange × Watchpoint))
    → is_some (find_watchpoint key m) ≡ false
    → erase_watchpoint key (emplace_watchpoint key w m) ≡ m
unfolding find_watchpoint emplace_watchpoint erase_watchpoint
erase-emplace_watchpoint key w [] h = rw (range_lt_irrefl key) refl
erase-emplace_watchpoint key w ((k, old) ∷ m) h =
    ground (arith, range_lt_irrefl key, erase-emplace_watchpoint key w m)

-- A watchpoint of some bytes and some kind that is added where the map has no key that it takes as
-- the same is acknowledged, and to remove it, which is acknowledged too, gives the state from before.
pub handle_remove_watchpoint-handle_add_watchpoint :
    (e : EmulatorDebug) (watch_write watch_read : Bool) (address size : ℕ)
    → size ≢ 0
    → (watch_read || watch_write) ≡ true
    → is_some (find_watchpoint (record { start = address; size = size }) e.watchpoints) ≡ false
    → ((handle_add_watchpoint e watch_write watch_read address size).1 ≡ ok_response)
      × (handle_remove_watchpoint
            (handle_add_watchpoint e watch_write watch_read address size).0
            address
            size
          ≡ (e, ok_response))
unfolding handle_add_watchpoint handle_remove_watchpoint
handle_remove_watchpoint-handle_add_watchpoint e ww wr address size h k absent =
    let range : AddressRange = record { start = address; size = size } in
    let w : Watchpoint = record { watch_write = ww; watch_read = wr; addr_range = range } in
    let some_size : (size == 0) ≡ false = ground arith in
    let some_kind : (not wr && not ww) ≡ false = ground arith in
    rw (some_size, some_kind)
      (
        refl,
        rw (find-emplace_watchpoint range w e.watchpoints) (
            ap (λ m. (record e { watchpoints = m }, ok_response))
              (erase-emplace_watchpoint range w e.watchpoints absent)),
      )
