-- ===== src/Memory/Writes.antt =====
-- What a write of lwip/tcp_memory.c, and the flow that it may begin, leave of the books.
use mathlib.Core.Path.{subst}
use tcp_shift.Prelude.{
  sym, ◌∙◌, ℕ, ◌+◌, ◌≤◌, ◌≡◌, ◌⊎◌, inl, inr, refl, Bool, true, false, not, ◌||◌, Option, none, some,
  ◌==◌, ◌/=◌, arith, if_elim,
}
use tcp_shift.Memory.{MemoryConfig, Manager, Flow, Pcb, no_flow, flow_set_sndbuf_expand, Grown}
use tcp_shift.Memory.Account.{Booked, note_write-Booked, release-Booked}
use tcp_shift.Memory.Grants.{
  can_write-Booked, GrownBooked, is_unfit, is_same, is_bigger, maybe_grow-Booked, InitBooked,
  is_refused, is_begun, flow_init-Booked,
}
use tcp_shift.Memory.Connection.{
  Ext, Connection, no_ext, Process, process_init, World, attached_ext, find_ext, keep_expand,
  apply_pending, start_flow, ensure_with, ensure,
}
use tcp_shift.Memory.Books.{
  flow_of, is_ready, Kept, After, After-trans, managed, unchanged, Typed, Initialised,
  process_init-Initialised,
}
use tcp_shift.Memory.Connection.{write_if, write_grown, write_ext, write_ensured, memory_write}

-- An expansion set, or not, over a flow that stays in order.
pub data Expanded (config : MemoryConfig) (others : ℕ) (m : Manager) : Option Flow → Type 0 where
  not_set : Expanded config others m none
  is_set :
      (f : Flow) → Booked config others m f → f.attached ≡ true → Expanded config others m (some f)

pub expand-Expanded :
    (config : MemoryConfig) (others : ℕ) (m : Manager) (f : Flow) (num den : ℕ)
    → Booked config others m f
    → Expanded config others m (flow_set_sndbuf_expand f num den)
unfolding flow_set_sndbuf_expand
expand-Expanded config others m f num den b =
    let fits = b.fits in
    if_elim (Expanded config others m) (not f.attached || (num == 0 || den == 0)) (λ _. not_set)
      (λ on.
        is_set _
          (record {
            config_eq = b.config_eq;
            sound = b.sound;
            fits = record {
              empty = fits.empty;
              capacity_ge = fits.capacity_ge;
              capacity_le = fits.capacity_le;
            };
            charged_eq = b.charged_eq;
          })
          (ground arith))

-- A connection ensured: its flow in order, and with a manager if that is what is answered.
pub record Ensured (others : ℕ) (p : Process) (r : Process × Connection × Bool) : Type 0 where
  pub after : After others p r.0 (flow_of r.1.ext)
  pub answers : (r.2 ≡ false) ⊎ ((flow_of r.1.ext).attached ≡ true)

keep_expand-Ensured :
    (others : ℕ) (p : Process) (m : Manager) (f : Flow) (pcb : Pcb) (c : Connection) (e : Ext)
    (o : Option Flow)
    → is_ready p.state ≡ true
    → Booked p.manager.config others m f
    → Expanded p.manager.config others m o
    → Ensured others p (keep_expand p m f pcb c e o)
keep_expand-Ensured others p m f pcb c e _ on b (is_set g bg has) = record {
  after = managed others p g m g on bg;
  answers = inr has;
}
keep_expand-Ensured others p m f pcb c e _ on b not_set = record {
  after = managed others p f _ _ on (release-Booked p.manager.config others m f b);
  answers = inl refl;
}

apply_pending-Ensured :
    (others : ℕ) (p : Process) (c : Connection) (e : Ext) (o : Option (Manager × Flow × Pcb))
    → is_ready p.state ≡ true
    → Kept others p e.flow
    → InitBooked p.manager.config others o
    → Ensured others p (apply_pending p c e o)
apply_pending-Ensured others p c e _ on k is_refused = record {
  after = unchanged others p e.flow k;
  answers = inl refl;
}
apply_pending-Ensured others p c e _ on k (is_begun m f pcb b has) =
    keep_expand-Ensured others p m f pcb c e _ on b (
      if_elim (Expanded p.manager.config others m) (e.pending_expand_num /= 0)
        (λ _.
          expand-Expanded p.manager.config others m f e.pending_expand_num e.pending_expand_den b)
        (λ _. is_set f b has))

start_flow-Ensured :
    (others : ℕ) (p : Process) (c : Connection) (x : Option Ext) (has_memory : Bool)
    → is_ready p.state ≡ true
    → (flow_of x).attached ≡ false
    → flow_of c.ext ≡ flow_of x
    → Kept others p (flow_of x)
    → Ensured others p (start_flow p c (find_ext x has_memory))
start_flow-Ensured others p c (some e) has_memory on off same k =
    apply_pending-Ensured others p c e _ on k
      (flow_init-Booked p.manager.config others p.manager e.flow c.pcb off k.booked)
start_flow-Ensured others p c none true on off same k =
    apply_pending-Ensured others p c no_ext _ on k
      (flow_init-Booked p.manager.config others p.manager no_flow c.pcb off k.booked)
start_flow-Ensured others p c none false on off same k = record {
  after = subst (After others p p) (sym same) (unchanged others p no_flow k);
  answers = inl refl;
}

attached_ext-lem : (x : Option Ext) → attached_ext x ≡ (flow_of x).attached
attached_ext-lem none = refl
attached_ext-lem (some e) = refl

ensure_with-Ensured :
    (others : ℕ) (p : Process) (c : Connection) (w : World) (r : Process × Bool)
    → (flow_of c.ext).attached ≡ false
    → Initialised others p (flow_of c.ext) r
    → Ensured others p (ensure_with r c w)
ensure_with-Ensured others p c w (q, false) off i = record { after = i.after; answers = inl refl }
ensure_with-Ensured others p c w (q, true) off i =
    let on : is_ready q.state ≡ true = let told = i.answers in ground arith in
    let e = start_flow-Ensured others q c c.ext w.has_memory on off refl i.after.kept in
    record { after = After-trans others p q _ _ i.after.carries e.after; answers = e.answers }

pub ensure-Ensured :
    (others : ℕ) (p : Process) (c : Connection) (w : World)
    → Typed w.config
    → Kept others p (flow_of c.ext)
    → Ensured others p (ensure p c w)
unfolding ensure
ensure-Ensured others p c w t k =
    let e = attached_ext-lem c.ext in
    if_elim (Ensured others p) (attached_ext c.ext)
      (λ on. record { after = unchanged others p _ k; answers = inr (sym e ∙ on) })
      (λ off.
        ensure_with-Ensured others p c w (process_init p w.config) (sym e ∙ off)
          (process_init-Initialised others p _ w.config t k))

-- The flow of a result, in order.
abbrev pub KeptAfter : ℕ → Process → Process × Connection → Type 0
KeptAfter others p r = After others p r.0 (flow_of r.1.ext)

abbrev pub first_two : Process × Connection × Bool → Process × Connection
first_two (p, c, _) = (p, c)

pub is_on :
    (others : ℕ) (p : Process) (f : Flow)
    → Kept others p f
    → f.attached ≡ true
    → is_ready p.state ≡ true
is_on others p f k on = let idle = k.idle in ground arith

write_if-Kept :
    (others : ℕ) (p : Process) (c : Connection) (e : Ext) (m : Manager) (may ok : Bool) (len : ℕ)
    → is_ready p.state ≡ true
    → flow_of c.ext ≡ e.flow
    → Booked p.manager.config others m e.flow
    → (may ≡ false) ⊎ (m.stats.charged_bytes + len ≤ m.config.mem.high_bytes)
    → KeptAfter others p (first_two (write_if p c e (m, may) len ok))
write_if-Kept others p c e m false ok len on same b room =
    subst (After others p (record p { manager = m })) (sym same)
      (managed others p e.flow m e.flow on b)
write_if-Kept others p c e m true false len on same b room =
    subst (After others p (record p { manager = m })) (sym same)
      (managed others p e.flow m e.flow on b)
write_if-Kept others p c e m true true len on same b room =
    managed others p e.flow _ _ on
      (note_write-Booked p.manager.config others m e.flow b len (ground arith))

write_grown-Kept :
    (others : ℕ) (p : Process) (c : Connection) (e : Ext) (g : Grown) (len : ℕ) (ok : Bool)
    → is_ready p.state ≡ true
    → flow_of c.ext ≡ e.flow
    → Kept others p e.flow
    → GrownBooked p.manager.config others e.flow g
    → KeptAfter others p (first_two (write_grown p c e g len ok))
write_grown-Kept others p c e _ len ok on same k is_unfit =
    subst (After others p p) (sym same) (unchanged others p e.flow k)
write_grown-Kept others p c e _ len ok on same k (is_same m b) =
    let (kept, room) = can_write-Booked p.manager.config others m e.flow b c.pcb len in
    write_if-Kept others p c e _ _ ok len on same kept room
write_grown-Kept others p c e _ len ok on same k (is_bigger m g pcb b _) =
    let (kept, room) = can_write-Booked p.manager.config others m g b pcb len in
    write_if-Kept others p _ (record e { flow = g }) _ _ ok len on refl kept room

write_ext-Kept :
    (others : ℕ) (p : Process) (c : Connection) (x : Option Ext) (len : ℕ) (ok : Bool)
    → flow_of c.ext ≡ flow_of x
    → (flow_of x).attached ≡ true
    → Kept others p (flow_of x)
    → KeptAfter others p (first_two (write_ext p c x len ok))
write_ext-Kept others p c none len ok same has k = ground arith
write_ext-Kept others p c (some e) len ok same has k =
    write_grown-Kept others p c e _ len ok (is_on others p e.flow k has) same k (
      maybe_grow-Booked p.manager.config others p.manager e.flow c.pcb e.flow.sndbuf_expand_num
        e.flow.sndbuf_expand_den k.booked)

write_ensured-Kept :
    (others : ℕ) (p : Process) (r : Process × Connection × Bool) (len : ℕ) (ok : Bool)
    → Ensured others p r
    → KeptAfter others p (first_two (write_ensured r len ok))
write_ensured-Kept others p (q, c, false) len ok e = e.after
write_ensured-Kept others p (q, c, true) len ok e =
    let has : (flow_of c.ext).attached ≡ true = let told = e.answers in ground arith in
    After-trans others p q _ _ e.after.carries
      (write_ext-Kept others q c c.ext len ok refl has e.after.kept)

pub write-Kept :
    (others : ℕ) (p : Process) (c : Connection) (w : World) (len : ℕ) (ok : Bool)
    → Typed w.config
    → Kept others p (flow_of c.ext)
    → KeptAfter others p (first_two (memory_write p c w len ok))
unfolding memory_write
write-Kept others p c w len ok t k =
    write_ensured-Kept others p (ensure p c w) len ok (ensure-Ensured others p c w t k)
