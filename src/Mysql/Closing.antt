-- ===== src/Mysql/Closing.antt =====
-- What libdbo_backend_mysql_connect of src/libdbo_backend_mysql.c leaves, and that
-- libdbo_backend_mysql_disconnect takes it back.
use dbo.Prelude.{
  ℕ, ◌<◌, ◌≡◌, true, false, none, some, List, Status, ok, error_unknown, done, arith, Option-cases,
  inl, inr, is_some, Outcome-cases, ◌⊎◌, [], ◌∷◌,
}
use dbo.Prelude.Text.{Memory, Text, codes, atoi, signed_number}
use dbo.Prelude.Int.{ℤ, IsSigned}
use dbo.Configuration
use dbo.Configuration.{Configuration}
use dbo.Mysql.Session.{Server, Backend}
use dbo.Mysql.Life.{
  Client, connect, configure, disconnect, rolled_back, number, timeout_of, port_of, real_connect,
}

atoi-IsSigned : (t : Text) (n : ℤ) → atoi t ≡ done n → IsSigned 31 n
unfolding atoi signed_number
atoi-IsSigned [] n h = ground (arith, h)
atoi-IsSigned (c ∷ t) n h = ground (arith, h, atoi-IsSigned t n)

number-IsSigned : (c : Configuration) (n : ℤ) → number c ≡ done n → IsSigned 31 n
unfolding number
number-IsSigned c n h = elim (Option-cases (Configuration.value_of (some c))) [
  | inl absent ↦ absurd (ground (arith, absent, h))
  | inr (t, given) ↦ atoi-IsSigned t n (ground (arith, given, h))
]

-- The timeout that connect uses is never 0, which MySQL would take for none.
timeout_of-positive : (cs : List Configuration) (t : ℕ) → timeout_of cs ≡ done t → 0 < t
unfolding timeout_of
timeout_of-positive cs t h =
    elim (Option-cases (Configuration.find (some cs) (some (codes "timeout")))) [
      | inl absent ↦ ground (arith, absent, h)
      | inr (c, found) ↦ elim (Outcome-cases (number c)) [
        | inl lost ↦ absurd (ground (arith, found, lost, h))
        | inr (n, given) ↦ ground (arith, found, given, h, number-IsSigned c n given)
      ]
    ]

module _ {Db : Type 0} (client : Client Db) (e : Server Db) where
  -- Either connect failed and only the timeout has changed, or it answered ok, there is a
  -- connection, and disconnect ends it again, with nothing left but the timeout.
  pub record Connected (s : Backend Db) (m : Memory) (r : Status) (s' : Backend Db) : Type 0 where
    pub timeout : ℕ
    pub positive : 0 < timeout
    pub outcome :
        ((r ≡ error_unknown) × (s' ≡ record s { timeout = timeout }))
        ⊎ ((r ≡ ok)
            × (is_some s'.db ≡ true)
            × (disconnect e (some s') m ≡ done (ok, some (record s { timeout = timeout }), m)))

  rolled_back-idle :
      (s : Backend Db) (m : Memory)
      → s.transaction ≡ false
      → rolled_back e s m ≡ done (ok, some s, m)
  unfolding rolled_back
  rolled_back-idle s m idle = rw idle

  disconnect-opened :
      (s s' : Backend Db) (db : Db) (t : ℕ) (m : Memory)
      → s.initialized ≡ true
      → s.transaction ≡ false
      → s.db ≡ none
      → s' ≡ record s { timeout = t; db = some db }
      → disconnect e (some s') m ≡ done (ok, some (record s { timeout = t }), m)
  unfolding disconnect
  disconnect-opened s s' db t m on idle closed h =
      let kept : s'.transaction ≡ false = ground (arith, h, idle) in
      ground (arith, on, closed, h, rolled_back-idle s' m kept)

  -- A connect of an initialized MySQL backend without a connection and without a transaction, with a
  -- list of configurations: if it answers the error, only the timeout has changed; if it answers ok,
  -- there is a connection, and disconnect then answers ok and leaves what there was before, but for
  -- the timeout. The timeout that is kept is not 0 in either case.
  pub connect-Connected :
      (s s' : Backend Db) (cs : List Configuration) (r : Status) (m : Memory)
      → s.initialized ≡ true
      → s.transaction ≡ false
      → s.db ≡ none
      → connect client (some s) (some cs) ≡ done (r, some s')
      → Connected s m r s'
  unfolding connect configure
  connect-Connected s s' cs r m on idle closed h = elim (Outcome-cases (port_of cs)) [
    | inl lost ↦ absurd (ground (arith, on, closed, lost, h))
    | inr (port, reached) ↦ elim (Outcome-cases (timeout_of cs)) [
      | inl lost ↦ absurd (ground (arith, on, closed, reached, lost, h))
      | inr (t, timed) ↦ record {
        timeout = t;
        positive = timeout_of-positive cs t timed;
        outcome = elim (Option-cases (real_connect client cs t port)) [
          | inl failed ↦ inl (
            ground (arith, on, closed, reached, timed, failed, h),
            ground (arith, on, closed, reached, timed, failed, h),
          )
          | inr (db, opened) ↦
              let moved : s' ≡ record s { timeout = t; db = some db } =
                ground (arith, on, closed, reached, timed, opened, h) in
              inr (
                ground (arith, on, closed, reached, timed, opened, h),
                ground (arith, moved),
                disconnect-opened s s' db t m on idle closed moved,
              )
        ];
      }
    ]
  ]
