-- ===== src/Heartbeat/Tracking.antt =====
-- The invariant between the status of the nodes and their timers.
use libwlmio.Prelude.{
  ℕ, ◌≡◌, ◌≢◌, refl, sym, ◌∙◌, ap, subst, List, [], ◌∷◌, ◌++◌, Option, none, some, ==_refl, ne→==,
  eq_of_some, inl, inr, ◌⊎◌,
}
use native.Mathlib.Decide.{ℕ_discrete}
use libwlmio.State.{FdEntry, Status, heartbeat_timeout_handler, mode_offline, update}
use libwlmio.Fds.{fd_entry_find, entry_at, unlink}
use libwlmio.Fds.Find.{find_fd, find-unlink, find-append_old, find-append_new}
use libwlmio.Fds.Laws.{entry_at-unlink, entry_at-append_old, entry_at-append_new}

pub update_same {ℓ} : {A : Type ℓ} (f : ℕ → A) (i : ℕ) (v : A) → update f i v i ≡ v
update_same f i v = rw (==_refl i)

pub update_other {ℓ} : {A : Type ℓ} (f : ℕ → A) (i j : ℕ) (v : A) → j ≢ i → update f i v j ≡ f j
update_other f i j v h = rw (ne→== j i h)

-- Reading an array after a write, with the index known or not.
pub update-some :
    (f : ℕ → Option ℕ) (i j : ℕ) (v : Option ℕ) {x : ℕ}
    → update f i v j ≡ some x
    → ((j ≡ i) × (v ≡ some x)) ⊎ ((j ≢ i) × (f j ≡ some x))
update-some f i j v e = elim (ℕ_discrete j i) [
  | yes p ↦ inl (p, sym (rw (p, ==_refl i)) ∙ e)
  | no p ↦ inr (p, sym (update_other f i j v p) ∙ e)
]

-- The entry of a timer: in the list under its descriptor and under its address.
pub record Entry (fds : List FdEntry) (fd : ℕ) : Type 0 where
  pub entry : FdEntry
  pub by_fd : fd_entry_find (some fd) fds ≡ some entry
  pub by_address : entry_at entry.addr fds ≡ some entry
  pub times_out : entry.handler ≡ heartbeat_timeout_handler

pub record IsTracked (nodes : ℕ → Status) (timers : ℕ → Option ℕ) (fds : List FdEntry)
    : Type 0 where
  pub online : (n : ℕ) → (nodes n).mode ≢ mode_offline → (fd : ℕ) × (timers n ≡ some fd)
  pub absent : (n : ℕ) → (nodes n).mode ≡ mode_offline → timers n ≡ none
  pub listed : (n fd : ℕ) → timers n ≡ some fd → Entry fds fd
  pub apart : (n m fd : ℕ) → timers n ≡ some fd → timers m ≡ some fd → n ≡ m

module _ (nodes : ℕ → Status) (timers : ℕ → Option ℕ) (fds : List FdEntry)
    (h : IsTracked nodes timers fds) (node : ℕ) where
  -- A node whose timer is closed.
  module _ (status : Status) (off : status.mode ≡ mode_offline) (fd : ℕ)
      (at : timers node ≡ some fd) where
    other-Entry :
        (m fd' : ℕ)
        → m ≢ node
        → timers m ≡ some fd'
        → Entry (unlink (h.listed node fd at).entry.addr fds) fd'
    other-Entry m fd' other e =
        let mine = h.listed node fd at in
        let its = h.listed m fd' e in
        let differ : its.entry.addr ≢ mine.entry.addr = λ p.
          let same : its.entry ≡ mine.entry =
            eq_of_some (sym its.by_address ∙ ap (λ a. entry_at a fds) p ∙ mine.by_address) in
          let fds_same : some fd' ≡ some fd =
            sym (find_fd (some fd') fds its.entry its.by_fd)
            ∙ ap (λ (x : FdEntry). x.fd) same
            ∙ find_fd (some fd) fds mine.entry mine.by_fd in
          other (h.apart m node fd (e ∙ fds_same) at) in
        record {
          entry = its.entry;
          by_fd = find-unlink (some fd') mine.entry.addr fds its.entry its.by_fd differ;
          by_address =
              entry_at-unlink mine.entry.addr its.entry.addr fds
              ∙ rw (ne→== mine.entry.addr its.entry.addr (λ p. differ (sym p))) its.by_address;
          times_out = its.times_out;
        }

    pub stop-IsTracked :
        IsTracked
          (update nodes node status)
          (update timers node none)
          (unlink (h.listed node fd at).entry.addr fds)
    stop-IsTracked = record {
      online = λ m on. elim (ℕ_discrete m node) [
        | yes p ↦ absurd (on (rw (p, ==_refl node) off))
        | no p ↦ rw (ne→== m node p) (h.online m (rw (ne→== m node p) at on))
      ];
      absent = λ m gone. elim (ℕ_discrete m node) [
        | yes p ↦ rw (p, ==_refl node)
        | no p ↦ rw (ne→== m node p) (h.absent m (rw (ne→== m node p) at gone))
      ];
      listed = λ m fd' e. elim (ℕ_discrete m node) [
        | yes p ↦
            let none_there : none ≡ some fd' = rw (p, ==_refl node) at e in absurd (cc none_there)
        | no p ↦ other-Entry m fd' p (rw (ne→== m node p) at e)
      ];
      apart = λ m k fd' e f. elim (update-some timers node m none e) [
        | inl (_, q) ↦ absurd (cc q)
        | inr (_, q) ↦ elim (update-some timers node k none f) [
          | inl (_, r) ↦ absurd (cc r)
          | inr (_, r) ↦ h.apart m k fd' q r
        ]
      ];
    }

  -- A node whose timer stays as it is.
  pub keep-IsTracked :
      (status : Status)
      → (status.mode ≢ mode_offline → (fd : ℕ) × (timers node ≡ some fd))
      → (status.mode ≡ mode_offline → timers node ≡ none)
      → IsTracked (update nodes node status) timers fds
  keep-IsTracked status on off = record {
    online = λ m p. elim (ℕ_discrete m node) [
      | yes q ↦ rw q (on (rw (q, ==_refl node) at p))
      | no q ↦ h.online m (rw (ne→== m node q) at p)
    ];
    absent = λ m p. elim (ℕ_discrete m node) [
      | yes q ↦ rw q (off (rw (q, ==_refl node) at p))
      | no q ↦ h.absent m (rw (ne→== m node q) at p)
    ];
    listed = h.listed;
    apart = h.apart;
  }

  -- A node that gets a timer: descriptor and address are not in use.
  module _ (status : Status) (on : status.mode ≢ mode_offline) (fd a : ℕ)
      (fd_new : fd_entry_find (some fd) fds ≡ none) (a_new : entry_at a fds ≡ none) where
    abbrev pub timer_entry : FdEntry
    timer_entry = record { addr = a; fd = some fd; handler = heartbeat_timeout_handler }

    abbrev fds_after : List FdEntry
    fds_after = fds ++ (timer_entry ∷ [])

    new-Entry : Entry fds_after fd
    unfolding fd_entry_find entry_at
    new-Entry = record {
      entry = timer_entry;
      by_fd = find-append_new (some fd) fds (timer_entry ∷ []) fd_new ∙ rw (==_refl fd);
      by_address = entry_at-append_new a fds (timer_entry ∷ []) a_new ∙ rw (==_refl a);
      times_out = refl;
    }

    old-Entry : (m fd' : ℕ) → timers m ≡ some fd' → Entry fds_after fd'
    old-Entry m fd' e =
        let its = h.listed m fd' e in
        record {
          entry = its.entry;
          by_fd = find-append_old (some fd') fds (timer_entry ∷ []) its.entry its.by_fd;
          by_address =
              entry_at-append_old its.entry.addr fds (timer_entry ∷ []) its.entry its.by_address;
          times_out = its.times_out;
        }

    unused : (m : ℕ) → timers m ≢ some fd
    unused m e = absurd (cc ((h.listed m fd e).by_fd, fd_new))

    pub start-IsTracked :
        IsTracked (update nodes node status) (update timers node (some fd)) fds_after
    start-IsTracked = record {
      online = λ m p. elim (ℕ_discrete m node) [
        | yes q ↦ (fd, rw (q, ==_refl node))
        | no q ↦ rw (ne→== m node q) (h.online m (rw (ne→== m node q) at p))
      ];
      absent = λ m p. elim (ℕ_discrete m node) [
        | yes q ↦ absurd (on (rw (q, ==_refl node) at p))
        | no q ↦ rw (ne→== m node q) (h.absent m (rw (ne→== m node q) at p))
      ];
      listed = λ m fd' e. elim (update-some timers node m (some fd) e) [
        | inl (_, q) ↦ subst (Entry fds_after) (eq_of_some q) new-Entry
        | inr (_, q) ↦ old-Entry m fd' q
      ];
      apart = λ m k fd' e f. elim (update-some timers node m (some fd) e) [
        | inl (p, q) ↦ elim (update-some timers node k (some fd) f) [
          | inl (p', _) ↦ p ∙ sym p'
          | inr (_, r) ↦ absurd (unused k (r ∙ sym q))
        ]
        | inr (_, q) ↦ elim (update-some timers node k (some fd) f) [
          | inl (_, r) ↦ absurd (unused m (q ∙ sym r))
          | inr (_, r) ↦ h.apart m k fd' q r
        ]
      ];
    }
