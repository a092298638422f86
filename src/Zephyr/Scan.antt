-- ===== src/Zephyr/Scan.antt =====
-- zephyr-samples/pcie_scan/src/main.c: what `scan_cb` prints of an endpoint. The registers and their
-- macros are those of Zephyr, and a parameter; `main` only passes `scan_cb` on.
use warp_pipe.Base.{
  ℕ, suc, zero, ◌+◌, ◌-◌, ◌≤◌, ◌≡◌, ◌≢◌, refl, ap, arith, Bool, true, false, not, List, [], ◌∷◌,
  leb, ◌==◌, if◌then◌else◌,
}

-- `pcie_conf_read`, the numbers of the registers, and the macros for what they hold.
pub record Registers : Type 0 where
  pub pcie_conf_read : ℕ → ℕ → ℕ
  pub conf_id : ℕ
  pub conf_classrev : ℕ
  pub conf_type : ℕ
  pub conf_bar0 : ℕ
  pub conf_bar5 : ℕ
  pub conf_bar_none : ℕ
  pub is_bridge : ℕ → Bool
  pub is_io : ℕ → Bool
  pub is_64 : ℕ → Bool
  pub bar_addr : ℕ → ℕ

-- A line for a BAR: its number, whether it is of I/O, and its address, for one of 64 bits with the
-- high half.
pub data BarLine : Type 0 where
  bar32 : ℕ → Bool → ℕ → BarLine
  bar64 : ℕ → Bool → ℕ → ℕ → BarLine

-- The first line: the identity, the class and the type; then those of the BARs.
pub record Endpoint : Type 0 where
  pub id : ℕ
  pub classrev : ℕ
  pub bridge : Bool
  pub bars : List BarLine

module _ (r : Registers) (bdf : ℕ) where
  abbrev read : ℕ → ℕ
  read = r.pcie_conf_read bdf

  -- The loop from the register `bar` on, for `rounds` rounds at most.
  unfoldable pub scan_bars : ℕ → ℕ → ℕ → List BarLine
  scan_bars conf_id bar zero = []
  scan_bars conf_id bar (suc rounds) =
      let bar_conf = read bar in
      let skipped = scan_bars conf_id (bar + 1) rounds in
      let short =
        bar32 (bar - r.conf_bar0) (r.is_io bar_conf) (r.bar_addr bar_conf)
        ∷ scan_bars conf_id (bar + 1) rounds in
      let long =
        bar64 (bar - r.conf_bar0) (r.is_io bar_conf) (read (bar + 1)) (r.bar_addr bar_conf)
        ∷ scan_bars conf_id (bar + 2) rounds in
      if not (leb bar r.conf_bar5)
      then []
      else if conf_id == r.conf_bar_none
      then skipped
      else if r.is_64 bar_conf
      then long
      else short

  unfoldable pub scan_cb : Endpoint
  unfolding scan_bars
  scan_cb =
      let conf_id = read r.conf_id in
      let bridge = r.is_bridge (read r.conf_type) in
      record {
        id = conf_id;
        classrev = read r.conf_classrev;
        bridge = bridge;
        bars =
            if bridge then [] else scan_bars conf_id (r.conf_bar0) (r.conf_bar5 + 1 - r.conf_bar0);
      }

  -- The lines for all registers of BARs from `bar` on.
  abbrev pub lines : ℕ → ℕ → List BarLine
  lines bar zero = []
  lines bar (suc rounds) =
      bar32 (bar - r.conf_bar0) (r.is_io (read bar)) (r.bar_addr (read bar))
      ∷ lines (bar + 1) rounds

  -- Where no BAR has 64 bits, every BAR of an endpoint is printed, also one whose register holds the
  -- value for a BAR that is missing.
  scan_bars-lines :
      (conf_id bar rounds : ℕ)
      → conf_id ≢ r.conf_bar_none
      → bar + rounds ≤ r.conf_bar5 + 1
      → ((reg : ℕ) → r.is_64 (read reg) ≡ false)
      → scan_bars conf_id bar rounds ≡ lines bar rounds
  unfolding scan_bars
  scan_bars-lines conf_id bar zero found last short = refl
  scan_bars-lines conf_id bar (suc rounds) found last short =
      let going : leb bar r.conf_bar5 ≡ true = ground arith in
      let test : (conf_id == r.conf_bar_none) ≡ false = ground (arith, found) in
      rw (going, test, short bar)
        (ap (bar32 (bar - r.conf_bar0) (r.is_io (read bar)) (r.bar_addr (read bar)) ∷◌)
          (scan_bars-lines conf_id (bar + 1) rounds found (omega arith) short))
