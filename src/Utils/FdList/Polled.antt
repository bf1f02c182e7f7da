-- ===== src/Utils/FdList/Polled.antt =====
-- What a list of descriptors holds.
use usbfluxd.Prelude.{
  ℕ, zero, suc, ◌+◌, ◌==◌, ◌≤◌, ◌<◌, ◌≡◌, refl, ap, ◌∙◌, Bool-cases, inl, inr, some, List, [], ◌∷◌,
  ◌++◌, length, take, set, replicate, arith, length-set, length-append, length-replicate,
  length-take,
}
use usbfluxd.Buffer.Memory.{take-append_le}
use usbfluxd.System.{Events, no_events}
use usbfluxd.Utils.FdList.{
  FdOwner, PollFd, FdList, blank, fdlist_create, enlarged, write_last, fdlist_add, fdlist_reset,
}

-- The arrays have `capacity` elements, which is not 0, and no more are in use.
pub record IsValid (list : FdList) : Type 0 where
  pub owners_there : length list.owners ≡ list.capacity
  pub fds_there : length list.fds ≡ list.capacity
  pub fits : list.count ≤ list.capacity
  pub positive : 0 < list.capacity

-- Two arrays, element by element.
pub pairs : List FdOwner → List PollFd → List (FdOwner × PollFd)
pairs (o ∷ os) (f ∷ fs) = (o, f) ∷ pairs os fs
pairs _ _ = []

-- The elements that are in use.
pub polled : FdList → List (FdOwner × PollFd)
polled list = pairs (take list.count list.owners) (take list.count list.fds)

pub fdlist_create-IsValid : IsValid fdlist_create × (polled fdlist_create ≡ [])
unfolding fdlist_create polled pairs
fdlist_create-IsValid = (
  record { owners_there = refl; fds_there = refl; fits = omega arith; positive = omega arith },
  refl,
)

pub fdlist_reset-IsValid :
    {list : FdList} → IsValid list → IsValid (fdlist_reset list) × (polled (fdlist_reset list) ≡ [])
unfolding fdlist_reset polled pairs
fdlist_reset-IsValid v = (
  record {
    owners_there = v.owners_there;
    fds_there = v.fds_there;
    fits = omega arith;
    positive = v.positive;
  },
  refl,
)

pairs-append :
    (os : List FdOwner) (fs : List PollFd) (o : FdOwner) (f : PollFd)
    → length os ≡ length fs
    → pairs (os ++ (o ∷ [])) (fs ++ (f ∷ [])) ≡ pairs os fs ++ ((o, f) ∷ [])
unfolding pairs
pairs-append [] [] o f e = refl
pairs-append [] (g ∷ fs) o f e = absurd (omega arith)
pairs-append (p ∷ os) [] o f e = absurd (omega arith)
pairs-append (p ∷ os) (g ∷ fs) o f e = ap (λ r. (p, g) ∷ r) (pairs-append os fs o f (omega arith))

take-set {ℓ} :
    {A : Type ℓ} (n : ℕ) (xs : List A) (v : A)
    → n < length xs
    → take (suc n) (set xs n v) ≡ take n xs ++ (v ∷ [])
take-set n [] v h = absurd (omega arith)
take-set zero (x ∷ xs) v h = refl
take-set (suc n) (x ∷ xs) v h = ap (λ r. x ∷ r) (take-set n xs v (omega arith))

enlarged-IsValid :
    {list : FdList}
    → IsValid list
    → IsValid (enlarged list)
      × ((enlarged list).count < (enlarged list).capacity)
      × (polled (enlarged list) ≡ polled list)
unfolding enlarged polled
enlarged-IsValid {list} v = elim (Bool-cases (list.count == list.capacity)) [
  | inl full ↦
      rw (full, enlarged)
        (
          record {
            owners_there = omega (
              arith,
              length-append list.owners (replicate list.capacity FdOwner.fd_listen),
              length-replicate list.capacity FdOwner.fd_listen,
              v.owners_there,
            );
            fds_there = omega (
              arith,
              length-append list.fds (replicate list.capacity blank),
              length-replicate list.capacity blank,
              v.fds_there,
            );
            fits = omega (arith, v.fits);
            positive = omega (arith, v.positive);
          },
          omega (arith, v.fits, v.positive),
          rw
              (
                take-append_le list.count list.owners (replicate list.capacity FdOwner.fd_listen)
                    (omega (arith, v.owners_there, v.fits)),
                take-append_le list.count list.fds (replicate list.capacity blank)
                    (omega (arith, v.fds_there, v.fits)),
              )
              refl,
        )
  | inr free ↦ rw (free, enlarged) (v, ground (arith, v.fits), refl)
]

write_last-polled :
    (owner : FdOwner) (fd : ℕ) (events : Events) {list : FdList}
    → IsValid list
    → list.count < list.capacity
    → (list' : FdList) × (write_last owner fd events list ≡ some list')
      × IsValid list'
      × (polled list'
          ≡ polled list ++ ((owner, record { fd = fd; events = events; revents = no_events }) ∷ []))
unfolding write_last polled
write_last-polled owner fd events {list} v lt =
    let entry : PollFd = record { fd = fd; events = events; revents = no_events } in
    let one_more : list.count + 1 ≡ suc list.count = omega arith in
    (
      record list {
        owners = set list.owners list.count owner;
        fds = set list.fds list.count entry;
        count = list.count + 1;
      },
      ground (arith, v.owners_there, v.fds_there),
      record {
        owners_there = length-set list.owners list.count owner ∙ v.owners_there;
        fds_there = length-set list.fds list.count entry ∙ v.fds_there;
        fits = omega arith;
        positive = v.positive;
      },
      ap
            (λ (n : ℕ).
              pairs (take n (set list.owners list.count owner))
                (take n (set list.fds list.count entry)))
            one_more
          ∙ (rw
              (
                take-set list.count list.owners owner (rw v.owners_there lt),
                take-set list.count list.fds entry (rw v.fds_there lt),
              )
              (pairs-append (take list.count list.owners) (take list.count list.fds) owner entry (
                omega (
                  arith,
                  length-take list.count list.owners,
                  length-take list.count list.fds,
                  v.owners_there,
                  v.fds_there,
                )))),
    )

-- `fdlist_add` on a valid list stays within the arrays, which grow where they are full, and puts the
-- descriptor, with no event reported yet, behind those that are there.
pub fdlist_add-polled :
    (owner : FdOwner) (fd : ℕ) (events : Events) {list : FdList}
    → IsValid list
    → (list' : FdList) × (fdlist_add owner fd events list ≡ some list')
      × IsValid list'
      × (polled list'
          ≡ polled list ++ ((owner, record { fd = fd; events = events; revents = no_events }) ∷ []))
unfolding fdlist_add
fdlist_add-polled owner fd events {list} v =
    let (valid, lt, same) = enlarged-IsValid v in
    let (list', e, valid', added) = write_last-polled owner fd events valid lt in
    (
      list',
      e,
      valid',
      added
          ∙ ap
              (λ xs. xs ++ ((owner, record { fd = fd; events = events; revents = no_events }) ∷ []))
              same,
    )
