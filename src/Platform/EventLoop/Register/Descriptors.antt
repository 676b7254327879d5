-- ===== src/Platform/EventLoop/Register/Descriptors.antt =====
-- The checks of the descriptors in `register_source` of src/platform/linux/linux_event_loop.cpp.
use eavp.Base.{true, false, ◌||◌, List, [], ◌∷◌, ◌≡◌, refl, arith, All}
use eavp.Base.Int.{ℤ, is_negative, int_eq}
use eavp.Status.{is_ok, ok_after}
use eavp.Platform.EventLoop.{PollFd, has_fd}
use eavp.Platform.EventLoop.Events.{is_empty, has_others}
use eavp.Platform.EventLoop.Register.{check_descriptors}

-- A descriptor that can be registered: it is one, asks for some of the allowed events only, and is new.
pub record IsNew (registered : List ℤ) (d : PollFd) : Type 0 where
  pub real : is_negative d.fd ≡ false
  pub asks : is_empty d.events ≡ false
  pub allowed : has_others d.events ≡ false
  pub fresh : has_fd d.fd registered ≡ false

pub check_descriptors-IsNew :
    (registered seen : List ℤ) (ds : List PollFd)
    → is_ok (check_descriptors registered seen ds) ≡ true
    → All (IsNew registered) ds
unfolding check_descriptors
check_descriptors-IsNew registered seen [] h = tt
check_descriptors-IsNew registered seen (d ∷ ds) h =
    let a = ok_after (is_negative d.fd || is_empty d.events || has_others d.events) _ _ refl h in
    let b = ok_after (has_fd d.fd seen || has_fd d.fd registered) _ _ refl a.1 in
    let x = a.0 in
    let y = b.0 in
    (
      record {
        real = ground (arith, x);
        asks = ground (arith, x);
        allowed = ground (arith, x);
        fresh = ground (arith, y);
      },
      check_descriptors-IsNew registered (d.fd ∷ seen) ds b.1,
    )

-- No two descriptors are the same.
pub Apart : List PollFd → Type 0
Apart [] = Unit
Apart (d ∷ ds) = All (λ (e : PollFd). int_eq e.fd d.fd ≡ false) ds × Apart ds

All-split :
    (fd : ℤ) (seen : List ℤ) (ds : List PollFd)
    → All (λ (e : PollFd). has_fd e.fd (fd ∷ seen) ≡ false) ds
    → All (λ (e : PollFd). int_eq e.fd fd ≡ false) ds
      × All (λ (e : PollFd). has_fd e.fd seen ≡ false) ds
unfolding has_fd
All-split fd seen [] h = (tt, tt)
All-split fd seen (d ∷ ds) (h, hs) =
    let r = All-split fd seen ds hs in ((ground (arith, h), r.0), (ground (arith, h), r.1))

pub check_descriptors-Apart :
    (registered seen : List ℤ) (ds : List PollFd)
    → is_ok (check_descriptors registered seen ds) ≡ true
    → All (λ (e : PollFd). has_fd e.fd seen ≡ false) ds × Apart ds
unfolding check_descriptors Apart
check_descriptors-Apart registered seen [] h = (tt, tt)
check_descriptors-Apart registered seen (d ∷ ds) h =
    let a = ok_after (is_negative d.fd || is_empty d.events || has_others d.events) _ _ refl h in
    let b = ok_after (has_fd d.fd seen || has_fd d.fd registered) _ _ refl a.1 in
    let y = b.0 in
    let r = check_descriptors-Apart registered (d.fd ∷ seen) ds b.1 in
    let t = All-split d.fd seen ds r.0 in ((ground (arith, y), t.1), (t.0, r.1))

All-join :
    (fd : ℤ) (seen : List ℤ) (ds : List PollFd)
    → All (λ (e : PollFd). int_eq e.fd fd ≡ false) ds
    → All (λ (e : PollFd). has_fd e.fd seen ≡ false) ds
    → All (λ (e : PollFd). has_fd e.fd (fd ∷ seen) ≡ false) ds
unfolding has_fd
All-join fd seen [] h k = tt
All-join fd seen (d ∷ ds) (h, hs) (k, ks) = (ground (arith, h, k), All-join fd seen ds hs ks)

-- The checks refuse no others.
pub check_descriptors-ok :
    (registered seen : List ℤ) (ds : List PollFd)
    → All (IsNew registered) ds
    → Apart ds
    → All (λ (e : PollFd). has_fd e.fd seen ≡ false) ds
    → is_ok (check_descriptors registered seen ds) ≡ true
unfolding check_descriptors Apart
check_descriptors-ok registered seen [] n a s = refl
check_descriptors-ok registered seen (d ∷ ds) (n, ns) (a, rest_apart) (s, ss) =
    let rest =
      check_descriptors-ok registered (d.fd ∷ seen) ds ns rest_apart (All-join d.fd seen ds a ss) in
    let r = n.real in
    let k = n.asks in let w = n.allowed in let f = n.fresh in rw (r, k, w, f, s) rest

pub All-unseen : (ds : List PollFd) → All (λ (e : PollFd). has_fd e.fd [] ≡ false) ds
unfolding has_fd
All-unseen [] = tt
All-unseen (d ∷ ds) = (refl, All-unseen ds)
