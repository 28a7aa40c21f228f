-- ===== src/Memory/Calls.antt =====
-- What the other calls of lwip/tcp_memory.c leave of the books.
use mathlib.Core.Path.{subst}
use tcp_shift.Prelude.{
  sym, ℕ, ◌≡◌, inl, inr, refl, Bool, true, false, ◌||◌, Option, none, some, ◌==◌, arith, if_elim,
  Bool-cases,
}
use tcp_shift.Memory.{Manager, Flow, no_flow, flow_note_acked, flow_release}
use tcp_shift.Memory.Account.{Booked, note_acked-Booked, release-Booked}
use tcp_shift.Memory.Connection.{Ext, Connection, Process, World, find_ext, ensure}
use tcp_shift.Memory.Books.{
  flow_of, is_ready, off-Fits, Kept, steady, After, After-trans, managed, unchanged, Typed,
}
use tcp_shift.Memory.Connection.{
  dispatch_ext, sent_dispatch, forget_sent, register, register_ensured, sent_ext, memory_sent,
  expand_flow, expand_ext, set_sndbuf_expand, destroy_ext, destroyed,
}
use tcp_shift.Memory.Writes.{
  Expanded, not_set, is_set, expand-Expanded, Ensured, ensure-Ensured, KeptAfter, is_on,
}

acked_off : (m : Manager) (f : Flow) (n : ℕ) → f.attached ≡ false → flow_note_acked m f n ≡ (m, f)
unfolding flow_note_acked
acked_off m f n off = rw (off) refl

release_off : (m : Manager) (f : Flow) → f.attached ≡ false → flow_release m f ≡ (m, f)
unfolding flow_release
release_off m f off = rw (off) refl

release_on : (m : Manager) (f : Flow) → f.attached ≡ true → (flow_release m f).1 ≡ no_flow
unfolding flow_release
release_on m f on = rw (on) refl

acked-After :
    (others : ℕ) (p : Process) (f : Flow) (n : ℕ)
    → Kept others p f
    → After others p
        (record p { manager = (flow_note_acked p.manager f n).0 })
        (flow_note_acked p.manager f n).1
acked-After others p f n k = elim (Bool-cases f.attached) [
  | inl on ↦
      managed others p f _ _ (is_on others p f k on)
        (note_acked-Booked p.manager.config others p.manager f k.booked n)
  | inr off ↦
      subst (λ (r : Manager × Flow). After others p (record p { manager = r.0 }) r.1)
        (sym (acked_off p.manager f n off)) (unchanged others p f k)
]

release-After :
    (others : ℕ) (p : Process) (f : Flow)
    → Kept others p f
    → After others p (record p { manager = (flow_release p.manager f).0 }) no_flow
release-After others p f k = elim (Bool-cases f.attached) [
  | inl on ↦ managed others p f _ _ (is_on others p f k on) (
      subst (Booked p.manager.config others (flow_release p.manager f).0)
        (release_on p.manager f on) (release-Booked p.manager.config others p.manager f k.booked))
  | inr off ↦
      let queue = k.booked.fits.empty off in
      let sum = k.booked.charged_eq in
      subst (λ (r : Manager × Flow). After others p (record p { manager = r.0 }) no_flow)
        (sym (release_off p.manager f off))
        (record {
          kept = record {
            booked = record {
              config_eq = refl;
              sound = k.booked.sound;
              fits = off-Fits p.manager.config no_flow refl refl;
              charged_eq = ground arith;
            };
            idle = λ _. refl;
            empty = k.empty;
          };
          carries = steady refl refl;
        })
]

-- Below, the extension stands beside its connection, so that its cases can be told apart.
dispatch_ext-Kept :
    (others : ℕ) (p : Process) (c : Connection) (x : Option Ext) (len : ℕ)
    → flow_of c.ext ≡ flow_of x
    → Kept others p (flow_of x)
    → KeptAfter others p ((dispatch_ext p c x len).0, (dispatch_ext p c x len).1)
dispatch_ext-Kept others p c none len e k =
    subst (After others p p) (sym e) (unchanged others p no_flow k)
dispatch_ext-Kept others p c (some e) len eq k = acked-After others p e.flow len k

pub dispatch-Kept :
    (others : ℕ) (p : Process) (c : Connection) (len : ℕ)
    → Kept others p (flow_of c.ext)
    → KeptAfter others p ((sent_dispatch p c len).0, (sent_dispatch p c len).1)
unfolding sent_dispatch
dispatch-Kept others p c len k = dispatch_ext-Kept others p c c.ext len refl k

destroy_ext-Kept :
    (others : ℕ) (p : Process) (c : Connection) (x : Option Ext)
    → flow_of c.ext ≡ flow_of x
    → Kept others p (flow_of x)
    → KeptAfter others p (destroy_ext p c x)
destroy_ext-Kept others p c none e k =
    subst (After others p p) (sym e) (unchanged others p no_flow k)
destroy_ext-Kept others p c (some x) e k = release-After others p x.flow k

pub destroyed-Kept :
    (others : ℕ) (p : Process) (c : Connection)
    → Kept others p (flow_of c.ext)
    → KeptAfter others p (destroyed p c)
unfolding destroyed
destroyed-Kept others p c k = destroy_ext-Kept others p c c.ext refl k

forget_sent-flow : (x : Option Ext) → flow_of (forget_sent x) ≡ flow_of x
forget_sent-flow none = refl
forget_sent-flow (some e) = refl

register-Kept :
    (others : ℕ) (p : Process) (c : Connection) (x : Option Ext) (sent : Option ℕ)
    → flow_of c.ext ≡ flow_of x
    → Kept others p (flow_of x)
    → KeptAfter others p (register p c x sent)
register-Kept others p c none sent e k =
    subst (After others p p) (sym e) (unchanged others p no_flow k)
register-Kept others p c (some x) sent e k = unchanged others p x.flow k

register_ensured-Kept :
    (others : ℕ) (p : Process) (r : Process × Connection × Bool) (sent : Option ℕ)
    → Ensured others p r
    → KeptAfter others p (register_ensured r sent)
register_ensured-Kept others p (q, c, false) sent e = e.after
register_ensured-Kept others p (q, c, true) sent e =
    After-trans others p q _ _ e.after.carries
      (register-Kept others q c c.ext sent refl e.after.kept)

sent_ext-Kept :
    (others : ℕ) (p : Process) (c : Connection) (w : World) (x : Option Ext) (sent : Option ℕ)
    → Typed w.config
    → flow_of c.ext ≡ flow_of x
    → Kept others p (flow_of x)
    → KeptAfter others p (sent_ext p c w x sent)
sent_ext-Kept others p c w x none t e k =
    subst (After others p p) (sym (forget_sent-flow x)) (unchanged others p _ k)
sent_ext-Kept others p c w (some x) (some f) t e k = register-Kept others p c (some x) (some f) e k
sent_ext-Kept others p c w none (some f) t e k =
    register_ensured-Kept others p (ensure p c w) (some f)
      (ensure-Ensured others p c w t (subst (Kept others p) (sym e) k))

pub sent-Kept :
    (others : ℕ) (p : Process) (c : Connection) (w : World) (sent : Option ℕ)
    → Typed w.config
    → Kept others p (flow_of c.ext)
    → KeptAfter others p (memory_sent p c w sent)
unfolding memory_sent
sent-Kept others p c w sent t k = sent_ext-Kept others p c w c.ext sent t refl k

expand_flow-Kept :
    (others : ℕ) (p : Process) (c : Connection) (e : Ext) (o : Option Flow)
    → flow_of c.ext ≡ e.flow
    → Kept others p e.flow
    → is_ready p.state ≡ true
    → Expanded p.manager.config others p.manager o
    → KeptAfter others p (p, (expand_flow c e o).0)
expand_flow-Kept others p c e _ eq k on not_set =
    subst (After others p p) (sym eq) (unchanged others p e.flow k)
expand_flow-Kept others p c e _ eq k on (is_set f b has) = managed others p e.flow p.manager f on b

expand_ext-Kept :
    (others : ℕ) (p : Process) (c : Connection) (x : Option Ext) (has_memory : Bool) (num den : ℕ)
    → flow_of c.ext ≡ flow_of x
    → Kept others p (flow_of x)
    → KeptAfter others p (p, (expand_ext c (find_ext x has_memory) num den).0)
expand_ext-Kept others p c (some e) has_memory num den eq k =
    if_elim (λ (r : Connection × Bool). KeptAfter others p (p, r.0)) e.flow.attached
      (λ on.
        expand_flow-Kept others p c e _ eq k (is_on others p e.flow k on)
          (expand-Expanded p.manager.config others p.manager e.flow num den k.booked))
      (λ _. unchanged others p e.flow k)
expand_ext-Kept others p c none true num den eq k = unchanged others p no_flow k
expand_ext-Kept others p c none false num den eq k =
    subst (After others p p) (sym eq) (unchanged others p no_flow k)

pub expand-Kept :
    (others : ℕ) (p : Process) (c : Connection) (w : World) (num den : ℕ)
    → Kept others p (flow_of c.ext)
    → KeptAfter others p (p, (set_sndbuf_expand c w num den).0)
unfolding set_sndbuf_expand
expand-Kept others p c w num den k =
    if_elim (λ (r : Connection × Bool). KeptAfter others p (p, r.0)) (num == 0 || den == 0)
      (λ _. unchanged others p _ k)
      (λ _. expand_ext-Kept others p c c.ext w.has_memory num den refl k)
