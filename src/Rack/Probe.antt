-- ===== src/Rack/Probe.antt =====
-- Tail loss probes: one is outstanding at a time, and it is answered once.
use mathlib.Core.Path.{subst}
use tcp_shift.Prelude.{
  ℕ, ◌≡◌, ◌≢◌, ◌⊎◌, refl, sym, ◌∙◌, inl, inr, Bool, true, false, ◌||◌, List, [], ◌∷◌, arith,
  Bool-cases,
}
use tcp_shift.Rack.{
  State, seq_after, seq_after_eq, probe_allowed, note_probe_sent, note_rtt_sample, tlp_reset,
  process_ack, nothing,
}

-- What can happen to a probe that has been sent.
pub data Event : Type 0 where
  rtt_sample : Event
  ack : ℕ → Bool → Bool → Event
  restart : Event

unfoldable pub handle : State → Event → State
handle s rtt_sample = note_rtt_sample s
handle s (ack seq dsack dupack) = (process_ack s seq dsack dupack).0
handle s restart = tlp_reset s

unfoldable pub handle_all : State → List Event → State
handle_all s [] = s
handle_all s (e ∷ es) = handle_all (handle s e) es

abbrev pub samples : List Event → Bool
samples [] = false
samples (rtt_sample ∷ es) = true
samples (_ ∷ es) = samples es

-- Whether the events could end a probe of this last sequence number.
abbrev pub answers : ℕ → List Event → Bool
answers end_seq [] = false
answers end_seq (ack seq _ _ ∷ es) = seq_after_eq seq end_seq || answers end_seq es
answers end_seq (restart ∷ es) = true
answers end_seq (_ ∷ es) = answers end_seq es

ack_keeps_sample :
    (s : State) (seq : ℕ) (d u : Bool)
    → (process_ack s seq d u).0.rtt_sample_since_probe ≡ s.rtt_sample_since_probe
unfolding process_ack
ack_keeps_sample s seq d u = ground arith

no_sample :
    (s : State) (es : List Event)
    → samples es ≡ false
    → (handle_all s es).rtt_sample_since_probe ≡ s.rtt_sample_since_probe
unfolding handle_all
no_sample s [] h = refl
no_sample s (rtt_sample ∷ es) h = cc
no_sample s (ack seq d u ∷ es) h =
    no_sample (handle s (ack seq d u)) es h ∙ (unfold handle in ack_keeps_sample s seq d u)
no_sample s (restart ∷ es) h = no_sample (handle s restart) es h ∙ (unfold handle tlp_reset in refl)

handle_unanswered :
    (s : State) (e : Event)
    → answers s.tlp_end_seq (e ∷ []) ≡ false
    → (handle s e).tlp_end_seq ≡ s.tlp_end_seq
unfolding handle note_rtt_sample process_ack
handle_unanswered s rtt_sample h = refl
handle_unanswered s (ack seq d u) h = ground arith
handle_unanswered s restart h = cc

answers-cons :
    (end_seq : ℕ) (e : Event) (es : List Event)
    → answers end_seq (e ∷ es) ≡ false
    → (answers end_seq (e ∷ []) ≡ false) × (answers end_seq es ≡ false)
answers-cons end_seq rtt_sample es h = (refl, h)
answers-cons end_seq (ack seq d u) es h = ground arith
answers-cons end_seq restart es h = cc

no_answer :
    (s : State) (end_seq : ℕ) (es : List Event)
    → s.tlp_end_seq ≡ end_seq
    → answers end_seq es ≡ false
    → (handle_all s es).tlp_end_seq ≡ end_seq
unfolding handle_all
no_answer s end_seq [] e h = e
no_answer s end_seq (v ∷ es) e h =
    let (here, rest) = answers-cons end_seq v es h in
    let here' = subst (λ k. answers k (v ∷ []) ≡ false) (sym e) here in
    no_answer (handle s v) end_seq es (handle_unanswered s v here' ∙ e) rest

-- A sample stays noted, whatever follows it.
sample_kept :
    (s : State) (es : List Event)
    → s.rtt_sample_since_probe ≡ true
    → (handle_all s es).rtt_sample_since_probe ≡ true
unfolding handle_all handle note_rtt_sample
sample_kept s [] h = h
sample_kept s (rtt_sample ∷ es) h = sample_kept (note_rtt_sample s) es refl
sample_kept s (ack seq d u ∷ es) h =
    sample_kept (process_ack s seq d u).0 es (ack_keeps_sample s seq d u ∙ h)
sample_kept s (restart ∷ es) h = sample_kept (tlp_reset s) es (unfold tlp_reset in h)

a_sample :
    (s : State) (es : List Event)
    → samples es ≡ true
    → (handle_all s es).rtt_sample_since_probe ≡ true
unfolding handle_all handle note_rtt_sample
a_sample s [] h = cc
a_sample s (rtt_sample ∷ es) h = sample_kept (note_rtt_sample s) es refl
a_sample s (ack seq d u ∷ es) h = a_sample (process_ack s seq d u).0 es h
a_sample s (restart ∷ es) h = a_sample (tlp_reset s) es h

-- With no new probe, the one that was sent is outstanding or has ended.
abbrev Outstanding : ℕ → State → Type 0
Outstanding end_seq s = (s.tlp_end_seq ≡ end_seq) ⊎ (s.tlp_end_seq ≡ 0)

handle-Outstanding :
    (s : State) (end_seq : ℕ) (e : Event) → Outstanding end_seq s → Outstanding end_seq (handle s e)
unfolding handle note_rtt_sample process_ack tlp_reset
handle-Outstanding s end_seq rtt_sample h = h
handle-Outstanding s end_seq (ack seq d u) h = ground arith
handle-Outstanding s end_seq restart h = inr refl

same_or_ended :
    (s : State) (end_seq : ℕ) (es : List Event)
    → Outstanding end_seq s
    → Outstanding end_seq (handle_all s es)
unfolding handle_all
same_or_ended s end_seq [] h = h
same_or_ended s end_seq (e ∷ es) h =
    same_or_ended (handle s e) end_seq es (handle-Outstanding s end_seq e h)

past_ends :
    (s : State) (end_seq seq : ℕ) (d u : Bool)
    → Outstanding end_seq s
    → seq_after seq end_seq ≡ true
    → (process_ack s seq d u).0.tlp_end_seq ≡ 0
unfolding process_ack tlp_reset seq_after seq_after_eq
past_ends s end_seq seq d u (inl e) h = ground arith
past_ends s end_seq seq d u (inr e) h = ground arith

-- After a probe whose last sequence number is not 0, no further probe is allowed until both a round
-- trip has been sampled and the probe has been reset or acknowledged up to that number.
pub note_probe_sent_alone :
    (s : State) (start_seq end_seq : ℕ) (again : Bool) (es : List Event)
    → end_seq ≢ 0
    → probe_allowed (handle_all (note_probe_sent s start_seq end_seq again) es) ≡ true
    → (samples es ≡ true) × (answers end_seq es ≡ true)
unfolding probe_allowed note_probe_sent
note_probe_sent_alone s start_seq end_seq again es nz h =
    let t = note_probe_sent s start_seq end_seq again in
    (
      elim (Bool-cases (samples es)) [
        | inl found ↦ found
        | inr missing ↦ ground (arith, no_sample t es missing)
      ],
      elim (Bool-cases (answers end_seq es)) [
        | inl found ↦ found
        | inr missing ↦ ground (arith, no_answer t end_seq es refl missing)
      ],
    )

-- An ACK that answers a probe ends it: no later ACK is taken for an answer, nor changes the state.
pub process_ack_once :
    (s : State) (seq : ℕ) (dsack dupack : Bool) (seq' : ℕ) (dsack' dupack' : Bool)
    → (process_ack s seq dsack dupack).1 ≢ nothing
    → let t = (process_ack s seq dsack dupack).0 in process_ack t seq' dsack' dupack' ≡ (t, nothing)
unfolding process_ack
process_ack_once s seq dsack dupack seq' dsack' dupack' h = ground arith

-- After a probe, and any ACKs, round trip samples and resets but no further probe: once a round trip
-- has been sampled, an ACK past the last sequence number of the probe makes the next probe allowed.
pub note_probe_sent_answered :
    (s : State) (start_seq end_seq : ℕ) (again : Bool) (es : List Event) (seq : ℕ)
    (dsack dupack : Bool)
    → samples es ≡ true
    → seq_after seq end_seq ≡ true
    → let t = handle_all (note_probe_sent s start_seq end_seq again) es in
      probe_allowed (process_ack t seq dsack dupack).0 ≡ true
unfolding probe_allowed
note_probe_sent_answered s start_seq end_seq again es seq dsack dupack sampled past =
    let start = note_probe_sent s start_seq end_seq again in
    let named : start.tlp_end_seq ≡ end_seq = unfold note_probe_sent in refl in
    let t = handle_all start es in
    let ended =
      past_ends t end_seq seq dsack dupack (same_or_ended start end_seq es (inl named)) past in
    let flag = ack_keeps_sample t seq dsack dupack in
    ground (arith, ended, flag, a_sample start es sampled)
