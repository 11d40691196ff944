-- ===== src/Session/Window.antt =====
-- sdl/session-context.ts and sdl/session-bindings.ts: the window of outstanding frames.
use ax25_ts.Base.{
  ==_iff, ==_refl, Bool, Bool-cases, List, [], ap, ap₂, arith, false, if◌then◌else◌, inl, inr,
  is_empty, leb, leb→le, ltb, none, refl, sym, true, ℕ, ◌%◌, ◌+◌, ◌-◌, ◌<◌, ◌==◌, ◌↔◌, ◌∙◌, ◌∷◌,
  ◌≡◌, ◌≤◌,
}
use ax25_ts.SegmentationLayer.{DataUnit}
use ax25_ts.Session.{
  SessionContext, advance_va, ahead, effective_window, get_entry, increment_seq, is_outstanding,
  keep_entries, modulus, prune_acknowledged_sent_i_frames,
}
use ax25_ts.Session.Bindings.{acknowledges, window_full}

-- V(A) stands for frame number `a` of the session, and `count` frames are outstanding.
pub record Outstanding (a count : ℕ) (ctx : SessionContext) : Type 0 where
  pub va : ctx.va ≡ a % modulus ctx
  pub vs : ctx.vs ≡ (a + count) % modulus ctx
  pub few : count < modulus ctx

abbrev modulus_for : Bool → ℕ
modulus_for extended = if extended then 128 else 8

ahead_of :
    (extended : Bool) (a n : ℕ)
    → n < modulus_for extended
    → ahead (modulus_for extended) ((a + n) % modulus_for extended) (a % modulus_for extended) ≡ n
ahead_of true a n h = omega arith
ahead_of false a n h = omega arith

next_number :
    (extended : Bool) (x : ℕ)
    → (x % modulus_for extended + 1) % modulus_for extended ≡ (x + 1) % modulus_for extended
next_number true x = omega arith
next_number false x = omega arith

modulus-positive : (extended : Bool) → 0 < modulus_for extended
modulus-positive true = omega arith
modulus-positive false = omega arith

-- The distance of frame number `a + i` from V(A), in an outstanding window.
ahead_va :
    (a count i : ℕ) (ctx : SessionContext)
    → Outstanding a count ctx
    → i < modulus ctx
    → ahead (modulus ctx) ((a + i) % modulus ctx) ctx.va ≡ i
ahead_va a count i ctx v h =
    ap (ahead (modulus ctx) ((a + i) % modulus ctx)) v.va ∙ ahead_of ctx.is_extended a i h

ahead_span :
    (a count : ℕ) (ctx : SessionContext)
    → Outstanding a count ctx
    → ahead (modulus ctx) ctx.vs ctx.va ≡ count
ahead_span a count ctx v =
    ap₂ (ahead (modulus ctx)) v.vs v.va ∙ ahead_of ctx.is_extended a count v.few

-- With `count` frames outstanding from number `a` on, an N(R) that stands for number `a + j` passes the
-- guard exactly when it acknowledges some of them, all, or none, and nothing beyond.
pub acknowledges_iff :
    (a count j : ℕ) (ctx : SessionContext)
    → Outstanding a count ctx
    → j < modulus ctx
    → (acknowledges ctx ((a + j) % modulus ctx) ≡ true) ↔ (j ≤ count)
unfolding acknowledges
acknowledges_iff a count j ctx v h =
    rw (ahead_va a count j ctx v h, ahead_span a count ctx v)
      ((λ e. leb→le j count e), (λ k. ground arith))

is_outstanding_at :
    (a count i : ℕ) (ctx : SessionContext)
    → Outstanding a count ctx
    → i < modulus ctx
    → is_outstanding ctx ((a + i) % modulus ctx) ≡ ltb i count
unfolding is_outstanding
is_outstanding_at a count i ctx v h = rw (ahead_va a count i ctx v h, ahead_span a count ctx v) refl

pub effective_window-lt : (ctx : SessionContext) → effective_window ctx < modulus ctx
unfolding effective_window
effective_window-lt ctx = let p = modulus-positive ctx.is_extended in ground arith

-- A frame that is sent while the guard says that the window is open leaves V(S) apart from V(A): one
-- more frame is outstanding, and still fewer than the modulus.
pub increment_seq-Outstanding :
    (a count : ℕ) (ctx : SessionContext)
    → Outstanding a count ctx
    → window_full ctx ≡ false
    → Outstanding a (count + 1) (record ctx { vs = increment_seq ctx ctx.vs })
      × (count + 1 ≤ effective_window ctx)
unfolding window_full increment_seq
increment_seq-Outstanding a count ctx v open_window =
    let e : leb (effective_window ctx) count ≡ false =
      ap (leb (effective_window ctx)) (sym (ahead_span a count ctx v)) ∙ open_window in
    let below : count < effective_window ctx = ground arith in
    let w = effective_window-lt ctx in
    (
      record {
        va = v.va;
        vs =
            ap (λ s. (s + 1) % modulus ctx) v.vs
            ∙ next_number ctx.is_extended (a + count)
            ∙ ap (λ n. n % modulus ctx) (omega arith);
        few = omega arith;
      },
      omega arith,
    )

get_entry-keep_entries :
    (wanted : ℕ → Bool) (ns : ℕ) (es : List (ℕ × DataUnit))
    → get_entry ns (keep_entries wanted es) ≡ (if wanted ns then get_entry ns es else none)
unfolding get_entry keep_entries
get_entry-keep_entries wanted ns [] = elim (Bool-cases (wanted ns)) [
  | inl t ↦ rw t refl
  | inr f ↦ rw f refl
]
get_entry-keep_entries wanted ns ((key, unit) ∷ rest) =
    let more = get_entry-keep_entries wanted ns rest in
    elim (Bool-cases (key == ns)) [
      | inl same ↦
          let here : key ≡ ns = (==_iff key ns).0 same in
          elim (Bool-cases (wanted ns)) [
            | inl t ↦ rw (here, t, ==_refl ns) refl
            | inr f ↦ rw (here, f) (rw f at more)
          ]
      | inr other ↦ elim (Bool-cases (wanted key)) [
        | inl t ↦ rw (t, other) more
        | inr f ↦ rw (f, other) more
      ]
    ]

keep_entries-none :
    (wanted : ℕ → Bool) (es : List (ℕ × DataUnit))
    → is_empty es ≡ true
    → es ≡ keep_entries wanted es
unfolding keep_entries
keep_entries-none wanted [] e = refl
keep_entries-none wanted (x ∷ es) e = cc

-- Pruning keeps the entries of outstanding numbers, and only those.
prune-get_entry :
    (ctx : SessionContext) (ns : ℕ)
    → get_entry ns (prune_acknowledged_sent_i_frames ctx).sent_i_frames
      ≡ (if is_outstanding ctx ns then get_entry ns ctx.sent_i_frames else none)
unfolding prune_acknowledged_sent_i_frames
prune-get_entry ctx ns = elim (Bool-cases (is_empty ctx.sent_i_frames)) [
  | inl t ↦ rw t (
      ap (get_entry ns) (keep_entries-none (is_outstanding ctx) ctx.sent_i_frames t)
      ∙ get_entry-keep_entries (is_outstanding ctx) ns ctx.sent_i_frames)
  | inr f ↦ rw f (get_entry-keep_entries (is_outstanding ctx) ns ctx.sent_i_frames)
]

prune-Outstanding :
    (a count : ℕ) (ctx : SessionContext)
    → Outstanding a count ctx
    → Outstanding a count (prune_acknowledged_sent_i_frames ctx)
unfolding prune_acknowledged_sent_i_frames
prune-Outstanding a count ctx v = elim (Bool-cases (is_empty ctx.sent_i_frames)) [
  | inl t ↦ rw t v
  | inr f ↦ rw f (record { va = v.va; vs = v.vs; few = v.few })
]

moves :
    (extended : Bool) (a j : ℕ)
    → 0 < j
    → j < modulus_for extended
    → ((a + j) % modulus_for extended == a % modulus_for extended) ≡ false
moves true a j p h = ground arith
moves false a j p h = ground arith

-- The context that an acknowledgement of the first `j` frames prunes.
abbrev moved_on : SessionContext → ℕ → SessionContext
moved_on ctx new_va = record ctx { va = new_va; selectively_retransmitted_since_ack = [] }

advance_va-moved :
    (ctx : SessionContext) (new_va : ℕ)
    → (new_va == ctx.va) ≡ false
    → advance_va ctx new_va ≡ prune_acknowledged_sent_i_frames (moved_on ctx new_va)
unfolding advance_va
advance_va-moved ctx new_va e = rw e refl

moved_on-Outstanding :
    (a count j : ℕ) (ctx : SessionContext)
    → Outstanding a count ctx
    → j ≤ count
    → Outstanding (a + j) (count - j) (moved_on ctx ((a + j) % modulus ctx))
moved_on-Outstanding a count j ctx v h =
    let few : count < modulus ctx = v.few in
    record { va = refl; vs = v.vs ∙ ap (λ n. n % modulus ctx) (omega arith); few = omega arith }

-- An acknowledgement of the first `j` of the outstanding frames, at least one, leaves the others
-- outstanding. Of the copies that are kept for sending again, exactly those of frames that are still
-- outstanding stay, unchanged.
pub advance_va-Outstanding :
    (a count j i : ℕ) (ctx : SessionContext)
    → Outstanding a count ctx
    → 0 < j
    → j ≤ count
    → i < modulus ctx
    → Outstanding (a + j) (count - j) (advance_va ctx ((a + j) % modulus ctx))
      × (get_entry
            ((a + j + i) % modulus ctx)
            (advance_va ctx ((a + j) % modulus ctx)).sent_i_frames
          ≡ (if ltb i (count - j)
              then get_entry ((a + j + i) % modulus ctx) ctx.sent_i_frames
              else none))
advance_va-Outstanding a count j i ctx v p h k =
    let few : count < modulus ctx = v.few in
    let apart : ((a + j) % modulus ctx == ctx.va) ≡ false =
      ap (λ n. (a + j) % modulus ctx == n) v.va ∙ moves ctx.is_extended a j p (omega arith) in
    let next = moved_on ctx ((a + j) % modulus ctx) in
    let w = moved_on-Outstanding a count j ctx v h in
    rw (advance_va-moved ctx ((a + j) % modulus ctx) apart) (
      prune-Outstanding (a + j) (count - j) next w,
      prune-get_entry next ((a + j + i) % modulus ctx)
          ∙ ap (λ b. if b then get_entry ((a + j + i) % modulus ctx) ctx.sent_i_frames else none)
              (is_outstanding_at (a + j) (count - j) i next w k),
    )
