-- ===== src/TimerWheel/Links.antt =====
-- The pointers of the events are those of one list of events for each slot, and moving an event moves
-- it in those lists.
use godby.Prelude.{
  ℕ, ◌≡◌, refl, ap, ◌∙◌, Bool, true, false, ◌&&◌, Option, none, some, List, ◌∷◌, arith, ◌==◌,
  if◌then◌else◌, ◌≢◌,
}
use godby.Prelude.Chain.{
  opt_is, mem, remove, first, after, before, Unique, mem-remove, Unique-remove, first-remove,
  after-remove, before-remove, before-mem, after-mem, first-before, first-mem, before-first,
  before_default,
}
use godby.TimerWheel.{Event, Wheel, set_event, unlink, link}

abbrev opt_is_none : Option ℕ → Bool
opt_is_none none = true
opt_is_none (some a) = false

-- The lists of a wheel: `L s` holds the events of slot `s`, front first. With `loose e`, the event
-- `e` itself is between lists.
pub record Lists (loose : Option ℕ) (w : Wheel) (L : ℕ → List ℕ) : Type 0 where
  pub head : (s : ℕ) → w.head s ≡ first (L s)
  pub slot : (e s : ℕ) → opt_is loose e ≡ false → opt_is (w.event e).slot s ≡ mem e (L s)
  pub next : (e s : ℕ) → mem e (L s) ≡ true → (w.event e).next ≡ after e (L s)
  pub prev : (e s : ℕ) → mem e (L s) ≡ true → (w.event e).prev ≡ before e (L s)
  pub unique : (s : ℕ) → Unique (L s)
  pub away : (e s : ℕ) → opt_is loose e ≡ true → mem e (L s) ≡ false

pub Lists-ext :
    {loose : Option ℕ} {w w' : Wheel} {L : ℕ → List ℕ}
    → ((s : ℕ) → w'.head s ≡ w.head s)
    → ((e : ℕ) → w'.event e ≡ w.event e)
    → Lists loose w L
    → Lists loose w' L
Lists-ext h k v = record {
  head = λ s. h s ∙ v.head s;
  slot = λ e s n. ap (λ (x : Event). opt_is x.slot s) (k e) ∙ v.slot e s n;
  next = λ e s m. ap (λ (x : Event). x.next) (k e) ∙ v.next e s m;
  prev = λ e s m. ap (λ (x : Event). x.prev) (k e) ∙ v.prev e s m;
  unique = v.unique;
  away = v.away;
}

-- The lists with `e` taken out of slot `s`, and with `e` put at the front of slot `s`.
abbrev pub without : (ℕ → List ℕ) → ℕ → ℕ → ℕ → List ℕ
without L e s u = if s == u then remove e (L u) else L u

abbrev pub with_front : (ℕ → List ℕ) → ℕ → ℕ → ℕ → List ℕ
with_front L e s u = if s == u then e ∷ L u else L u

-- What the two blocks of `relink` leave in the memory.
unlink-event :
    (e s x : ℕ) (w : Wheel)
    → (unlink e s w).event x ≡ record (w.event x) {
      next = if opt_is (w.event e).prev x then (w.event e).next else (w.event x).next;
      prev = if opt_is (w.event e).next x then (w.event e).prev else (w.event x).prev;
    }
unfolding unlink
unlink-event e s x w = ground arith

unlink-head :
    (e s u : ℕ) (w : Wheel)
    → (unlink e s w).head u
      ≡ (if s == u && opt_is_none (w.event e).prev then (w.event e).next else w.head u)
unfolding unlink
unlink-head e s u w = ground arith

link-event :
    (e s x : ℕ) (w : Wheel)
    → (w.head s ≢ some e)
    → (link e (some s) w).event x ≡ record (w.event x) {
      next = if e == x then w.head s else (w.event x).next;
      prev = if opt_is (w.head s) x then some e else (w.event x).prev;
    }
unfolding link
link-event e s x w ne = ground arith

link-head :
    (e s u : ℕ) (w : Wheel) → (link e (some s) w).head u ≡ (if s == u then some e else w.head u)
unfolding link
link-head e s u w = ground arith

module _ {w : Wheel} {L : ℕ → List ℕ} (v : Lists none w L) (e s : ℕ)
    (here : (w.event e).slot ≡ some s) where
  listed : mem e (L s) ≡ true
  listed = ground (arith, v.slot e s refl)

  next_here :
      (x : ℕ)
      → mem x (remove e (L s)) ≡ true
      → (if opt_is (w.event e).prev x then (w.event e).next else (w.event x).next)
        ≡ after x (remove e (L s))
  next_here x m = ground (
    arith,
    v.next x s,
    v.next e s listed,
    v.prev e s listed,
    after-remove none x e (L s) (v.unique s) listed,
    mem-remove x e (L s) (v.unique s),
  )

  prev_here :
      (x : ℕ)
      → mem x (remove e (L s)) ≡ true
      → (if opt_is (w.event e).next x then (w.event e).prev else (w.event x).prev)
        ≡ before x (remove e (L s))
  prev_here x m = ground (
    arith,
    v.prev x s,
    v.next e s listed,
    v.prev e s listed,
    before-remove none x e (L s) (v.unique s) listed,
    mem-remove x e (L s) (v.unique s),
  )

  elsewhere : (x u : ℕ) → mem x (L u) ≡ true → (s == u) ≡ false → mem x (L s) ≡ false
  elsewhere x u m ne = ground (arith, v.slot x u refl, v.slot x s refl)

  pub unlink-Lists : Lists (some e) (unlink e s w) (without L e s)
  unlink-Lists = record {
    head = λ u. rw (unlink-head e s u w) (
        ground (
          arith,
          v.head u,
          v.next e s listed,
          v.prev e s listed,
          first-remove e (L u),
          first-before e (L s) listed,
        ));
    slot = λ x u ne.
        rw (unlink-event e s x w)
          (ground (arith, v.slot x u refl, mem-remove x e (L u) (v.unique u)));
    next = λ x u m. rw (unlink-event e s x w) (
        ground (
          arith,
          v.next x u,
          v.prev e s listed,
          next_here x,
          elsewhere x u,
          before-mem none e x (L s),
        ));
    prev = λ x u m. rw (unlink-event e s x w) (
        ground
          (arith, v.prev x u, v.next e s listed, prev_here x, elsewhere x u, after-mem e x (L s)));
    unique = λ u. ground (arith, v.unique u, Unique-remove e (L u) (v.unique u));
    away = λ x u same. ground (arith, mem-remove x e (L u) (v.unique u), v.slot e u refl);
  }

-- The end of `relink`: the fields of the event itself.
abbrev pub settle : ℕ → Option ℕ → Wheel → Wheel
settle e new w = set_event w e (record (w.event e) { prev = none; slot = new })

module _ {w : Wheel} {L : ℕ → List ℕ} (e : ℕ) (v : Lists (some e) w L) where
  pub absent : (s : ℕ) → mem e (L s) ≡ false
  absent s = v.away e s (ground arith)

  not-head : (s : ℕ) → w.head s ≢ some e
  not-head s h = ground (arith, v.head s, first-mem e (L s), absent s)

  pub settle-Lists : Lists none (settle e none (link e none w)) L
  unfolding link
  settle-Lists = record {
    head = v.head;
    slot = λ x u ne. ground (arith, v.slot x u, absent u);
    next = λ x u m. ground (arith, v.next x u m, absent u);
    prev = λ x u m. ground (arith, v.prev x u m, absent u);
    unique = v.unique;
    away = λ x u same. cc;
  }

  pub link-Lists : (s : ℕ) → Lists none (settle e (some s) (link e (some s) w)) (with_front L e s)
  link-Lists s = record {
    head = λ u. rw (link-head e s u w) (ground (arith, v.head u));
    slot = λ x u ne. ground (arith, link-event e s x w (not-head s), v.slot x u, absent u);
    next = λ x u m. ground (arith, link-event e s x w (not-head s), v.head s, v.next x u, absent u);
    prev = λ x u m. ground (
      arith,
      link-event e s x w (not-head s),
      v.head s,
      v.prev x u,
      absent u,
      before-first (some e) x (L s),
      before_default (some e) none x (L s),
      first-mem x (L s),
      v.slot x s,
      v.slot x u,
    );
    unique = λ u. ground (arith, v.unique u, absent u);
    away = λ x u same. cc;
  }
