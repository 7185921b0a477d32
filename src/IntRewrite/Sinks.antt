-- ===== src/IntRewrite/Sinks.antt =====
-- src/IntRewrite.cc: findSink, the search for a use that is a sink.
use kint_test.Base.{ℕ, ◌≡◌, refl, Bool, true, false, Option, none, some}
use mathlib.Core.Option.{some_inj, none-ne-some}

-- The uses of a value, in their order. Of an instruction: its sink metadata, whether it is a binary
-- operator or a cast, and its own uses.
pub data Uses : Type 0 where
  end : Uses
  other_user : (rest : Uses) → Uses
  instruction : (sink : Option ℕ) (passes_on : Bool) (uses rest : Uses) → Uses

unfoldable pub find_sink : Uses → Option ℕ
find_sink end = none
find_sink (other_user rest) = find_sink rest
find_sink (instruction (some md) passes_on uses rest) = some md
find_sink (instruction none true uses rest) = find_sink uses
find_sink (instruction none false uses rest) = find_sink rest

-- A value flows into the sink `md` directly, or through binary operators and casts.
pub data Flows (md : ℕ) : Uses → Type 0 where
  into :
      {passes_on : Bool} {uses rest : Uses} → Flows md (instruction (some md) passes_on uses rest)
  through :
      {sink : Option ℕ} {uses rest : Uses}
      → Flows md uses
      → Flows md (instruction sink true uses rest)
  later :
      {sink : Option ℕ} {passes_on : Bool} {uses rest : Uses}
      → Flows md rest
      → Flows md (instruction sink passes_on uses rest)
  past : {rest : Uses} → Flows md rest → Flows md (other_user rest)

-- Binary operators and casts are last among the uses, at all levels.
abbrev pub OperatorsLast : Uses → Type 0
OperatorsLast end = Unit
OperatorsLast (other_user rest) = OperatorsLast rest
OperatorsLast (instruction sink true uses rest) = (rest ≡ end) × OperatorsLast uses
OperatorsLast (instruction sink false uses rest) = OperatorsLast rest

find_sink-Flows : (us : Uses) (md : ℕ) → find_sink us ≡ some md → Flows md us
unfolding find_sink
find_sink-Flows end md h = absurd (none-ne-some md h)
find_sink-Flows (other_user rest) md h = past (find_sink-Flows rest md h)
find_sink-Flows (instruction (some sink) passes_on uses rest) md h = rw (some_inj.0 h) into
find_sink-Flows (instruction none true uses rest) md h = through (find_sink-Flows uses md h)
find_sink-Flows (instruction none false uses rest) md h = later (find_sink-Flows rest md h)

no_flow_at_end : (md : ℕ) (us : Uses) → us ≡ end → Flows md us → ⊥
no_flow_at_end md us h flow = let at_end : Flows md end = rw h at flow in elim at_end [ ]

find_sink_finds :
    (us : Uses) (md : ℕ)
    → OperatorsLast us
    → Flows md us
    → (found : ℕ) × (find_sink us ≡ some found)
unfolding find_sink
find_sink_finds end md last flow = elim flow [ ]
find_sink_finds (instruction (some sink) passes_on uses rest) md last flow = (sink, refl)
find_sink_finds (other_user rest) md last (past flow) = find_sink_finds rest md last flow
find_sink_finds (instruction none true uses rest) md last (through flow) =
    find_sink_finds uses md last.1 flow
find_sink_finds (instruction none true uses rest) md last (later flow) =
    absurd (no_flow_at_end md rest last.0 flow)
find_sink_finds (instruction none false uses rest) md last (later flow) =
    find_sink_finds rest md last flow

-- Where binary operators and casts are last among the uses, and a value flows into some sink, a
-- sink is found, and the value flows into it.
pub find_sink_complete :
    (us : Uses) (md : ℕ)
    → OperatorsLast us
    → Flows md us
    → (found : ℕ) × (find_sink us ≡ some found) × Flows found us
find_sink_complete us md last flow =
    let (found, finds) = find_sink_finds us md last flow in
    (found, finds, find_sink-Flows us found finds)
