-- ===== src/Range/State.antt =====
-- src/CRange.h, and of src/Range.cc the state with its unions and getRange. Identifiers, values and
-- basic blocks are numbers, and 0 is the empty identifier. A map is a function that gives `none`
-- for a missing key.
use kint_test.Base.{
  ℕ, Bool, true, false, ◌&&◌, ◌||◌, not, ◌==◌, if◌then◌else◌, Option, none, some, List, [], ◌∷◌,
}
use kint_test.Global.TaintMap.{TaintMap, is_source}
use kint_test.Range.Algebra.{ConstantRange}

-- A value of integer type, or a pointer to one, as getRange tells them apart. The identifiers are
-- those of Annotation.h: of a call the getRetId of its possible callees, `none` for inline assembly
-- and calls that are not in Callees, and of other values their getValueId.
pub data Operand : Type 0 where
  const_int : (width value : ℕ) → Operand
  call_value : (number width : ℕ) (callees : Option (List ℕ)) → Operand
  other_value : (number width id : ℕ) → Operand

module _ (cr : ConstantRange) where
  open cr use {
    Range, bits, full_set, empty_set, single, is_full_set, is_empty_set, same_range, union_with,
    zext_or_trunc,
  }

  -- CRange::match
  unfoldable pub match_bits : Range → Range → Range
  match_bits v r = if bits v == bits r then v else zext_or_trunc (bits r) v

  -- CRange::safeUnion: the new range, and whether it is another.
  unfoldable pub safe_union : Range → Range → Range × Bool
  unfolding match_bits
  safe_union old r = let new = union_with old (match_bits r old) in (new, not (same_range old new))

  -- CRange::sdiv
  unfoldable pub sdiv : Range → Range → Range
  sdiv l r = if is_empty_set l || is_empty_set r then empty_set (bits l) else full_set (bits l)

  pub record RangeState : Type 0 where
    -- Ctx->IntRanges
    pub int_ranges : ℕ → Option Range
    pub changes : List ℕ
    -- FuncVRMs, by the block and the value
    pub func_vrms : ℕ → ℕ → Option Range

  abbrev pub put : (ℕ → Option Range) → ℕ → Range → ℕ → Option Range
  put map key r k = if k == key then some r else map k

  abbrev pub put_vrm : (ℕ → ℕ → Option Range) → ℕ → ℕ → Range → ℕ → ℕ → Option Range
  put_vrm vrms bb v r b = if b == bb then put (vrms b) v r else vrms b

  -- What an entry becomes, and whether that is a change.
  unfoldable pub join : Option Range → Range → Range × Bool
  unfolding safe_union
  join none r = (r, true)
  join (some old) r = safe_union old r

  -- unionRange(StringRef, const CRange &, Value *)
  unfoldable pub union_id : RangeState → ℕ → Range → RangeState × Bool
  unfolding join
  union_id st id r =
      let (new, changed) = join (st.int_ranges id) r in
      if is_empty_set r then (st, false) else (
        record st {
          int_ranges = put st.int_ranges id new;
          changes = if changed then id ∷ st.changes else st.changes;
        },
        changed,
      )

  -- unionRange(BasicBlock *, Value *, const CRange &), without its result, which no caller uses
  unfoldable pub union_value : RangeState → ℕ → ℕ → Range → RangeState
  unfolding join
  union_value st bb v r =
      if is_empty_set r
      then st
      else record st { func_vrms = put_vrm st.func_vrms bb v ((join (st.func_vrms bb v) r).0) }

  module _ (taints : TaintMap) where
    -- The union over the possible callees, until one is a taint source.
    unfoldable pub callees_range : (ℕ → Option Range) → ℕ → Range → List ℕ → Range
    unfolding safe_union
    callees_range ranges width r [] = r
    callees_range ranges width r (id ∷ ids) =
        let rest =
          callees_range ranges width
            (elim (ranges id) [ none ↦ r | some other ↦ (safe_union r other).0 ]) ids in
        if not (id == 0) && is_source taints id then full_set width else rest

    abbrev pub id_range : (ℕ → Option Range) → ℕ → ℕ → Range
    id_range ranges width id =
        if id == 0
        then empty_set width
        else if is_source taints id
        then full_set width
        else elim (ranges id) [ none ↦ empty_set width | some r ↦ r ]

    -- The global range of a value.
    unfoldable pub global_range : (ℕ → Option Range) → Operand → Range
    unfolding callees_range
    global_range ranges (const_int width value) = single width value
    global_range ranges (call_value number width none) = empty_set width
    global_range ranges (call_value number width (some ids)) =
        callees_range ranges width (empty_set width) ids
    global_range ranges (other_value number width id) =
        zext_or_trunc width (id_range ranges width id)

    abbrev pub found_or_global : RangeState → ℕ → ℕ → Range → Option Range → Range × RangeState
    found_or_global st bb v global (some r) = (r, st)
    found_or_global st bb v global none = (
      global,
      if is_empty_set global
          then st
          else record st { func_vrms = put_vrm st.func_vrms bb v global },
    )

    -- getRange
    unfoldable pub get_range : RangeState → ℕ → Operand → Range × RangeState
    unfolding global_range
    get_range st bb (const_int width value) = (single width value, st)
    get_range st bb (call_value v width callees) =
        found_or_global st bb v (global_range st.int_ranges (call_value v width callees))
          (st.func_vrms bb v)
    get_range st bb (other_value v width id) =
        found_or_global st bb v (global_range st.int_ranges (other_value v width id))
          (st.func_vrms bb v)
