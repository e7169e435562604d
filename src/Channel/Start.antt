-- ===== src/Channel/Start.antt =====
-- `clive_channel_start`: it ends without an abort, and what epoll then knows of the channel.
use cliveserver.Base.{
  ℕ, ◌<◌, ◌≡◌, refl, ◌∙◌, inl, inr, Bool, true, false, not, ◌&&◌, some, lt→ltb, ==_self,
  if◌then◌else◌, Bool-cases,
}
use cliveserver.Base.Int.{ℤ, pos, negsuc, is_neg}
use cliveserver.Event.{
  Con, Epoll, Run, returned, input, both, ctl_add, ctl_mod, event_add_conn, event_del_out,
}
use cliveserver.Event.Flags.{Agrees, SameElsewhere}
use cliveserver.Channel.{Channel, is_listening, is_zero, clive_channel_start}

module _ (epoll : Epoll) (k : epoll.Kernel) (channel : Channel) where
  abbrev skt : ℕ
  skt = channel.connection.skt

  -- what epoll answers to the registration for both directions
  abbrev registration : ℤ × epoll.Kernel
  registration = epoll.ctl k skt (ctl_add both)

  -- and then to the change to input only
  abbrev change : ℤ × epoll.Kernel
  change = epoll.ctl registration.1 skt (ctl_mod input)

  -- a UDP or TCP channel that is registered is changed to input only
  abbrev changes : Bool
  changes = is_zero registration.0 && is_listening channel.input_protocol

  -- the channel's connection, active for input, and for output unless for input only
  abbrev active : Bool → Con
  active input_only = record channel.connection { recv_active = true; send_active = not input_only }

  -- A start that returned: refused, with epoll's status and nothing changed; or registered, for input
  -- only if that change was made and succeeded, else for both directions, with the last status.
  pub data Started : Run (ℤ × Channel × epoll.Kernel) → Type 0 where
    refused :
        {k' : epoll.Kernel}
        → is_neg registration.0 ≡ true
        → ((s : ℕ) → epoll.interest k' s ≡ epoll.interest k s)
        → Started (returned (registration.0, channel, k'))
    watched :
        {k' : epoll.Kernel} {val : ℤ} {input_only : Bool}
        → is_neg registration.0 ≡ false
        → input_only ≡ (changes && not (is_neg change.0))
        → val ≡ (if changes then change.0 else registration.0)
        → Agrees epoll k' (active input_only)
        → SameElsewhere epoll k k' skt
        → Started (returned (val, record channel { connection = active input_only }, k'))

-- a status below 0 is not 0, and one of 0 not below
negative-is_zero : (val : ℤ) → is_neg val ≡ true → is_zero val ≡ false
negative-is_zero (pos n) e = cc
negative-is_zero (negsuc n) e = refl

module _ (epoll : Epoll) (k : epoll.Kernel) (channel : Channel)
    (good : is_neg (registration epoll k channel).0 ≡ false) where
  abbrev added : epoll.Kernel
  added = (registration epoll k channel).1

  known_both : epoll.interest added channel.connection.skt ≡ some both
  known_both =
      epoll.ctl_done k channel.connection.skt (ctl_add both) channel.connection.skt good
      ∙ rw (==_self channel.connection.skt) refl

  elsewhere : SameElsewhere epoll k added channel.connection.skt
  elsewhere s other = epoll.ctl_done k channel.connection.skt (ctl_add both) s good ∙ rw other refl

  -- registered for both directions, and no change to input only
  left_at_both :
      changes epoll k channel ≡ false
      → Started epoll k channel (
          returned (
            (registration epoll k channel).0,
            record channel {
              connection = record channel.connection { recv_active = true; send_active = true };
            },
            added,
          ))
  left_at_both e =
      watched {input_only = false} good (rw e refl) (rw e refl)
        (record { sends_receives = λ _. refl; known = known_both }) elsewhere

  -- registered for both directions, and the change to input only tried
  changed :
      changes epoll k channel ≡ true
      → let change = change epoll k channel in
        Started epoll k channel (
          returned (
            change.0,
            record channel {
              connection =
                  if is_neg change.0
                  then record channel.connection { recv_active = true; send_active = true }
                  else record channel.connection { recv_active = true; send_active = false };
            },
            change.1,
          ))
  changed e =
      let skt = channel.connection.skt in
      let c : ℤ × epoll.Kernel = change epoll k channel in
      elim (Bool-cases (is_neg c.0)) [
        | inl bad ↦ rw bad (
            watched {input_only = false} good (rw (e, bad) refl) (rw e refl)
              (record {
                sends_receives = λ _. refl;
                known = epoll.ctl_failed added skt (ctl_mod input) skt bad ∙ known_both;
              })
              (λ s other. epoll.ctl_failed added skt (ctl_mod input) s bad ∙ elsewhere s other))
        | inr done ↦ rw done (
            watched {input_only = true} good (rw (e, done) refl) (rw e refl)
              (record {
                sends_receives = λ _. refl;
                known = epoll.ctl_done added skt (ctl_mod input) skt done ∙ rw (==_self skt) refl;
              })
              (λ s other.
                epoll.ctl_done added skt (ctl_mod input) s done ∙ rw other (elsewhere s other)))
      ]

-- On an event base whose descriptor is not 0, the start of a channel with an open descriptor returns.
-- If epoll refuses the registration for both directions, with that status and nothing changed. Else the
-- connection's flags agree with epoll, no other descriptor's registration has changed, and of the
-- channel only the two flags have: a UDP or TCP channel registered with status 0 is then changed to
-- input only and has the status of that change, and stays at both directions if the change fails; any
-- other stays at both, with the status of the registration.
pub clive_channel_start-Started :
    (epoll : Epoll) (k : epoll.Kernel) (channel : Channel)
    → 0 < epoll.ep
    → 0 < channel.connection.skt
    → Started epoll k channel (clive_channel_start epoll k channel)
unfolding clive_channel_start event_add_conn event_del_out
clive_channel_start-Started epoll k channel open_ep open_skt =
    let c = channel.connection in
    let a : ℤ × epoll.Kernel = registration epoll k channel in
    rw (lt→ltb 0 epoll.ep open_ep, lt→ltb 0 c.skt open_skt)
      (elim (Bool-cases (is_neg a.0)) [
        | inl bad ↦
            rw (bad, negative-is_zero a.0 bad)
              (refused bad (λ s. epoll.ctl_failed k c.skt (ctl_add both) s bad))
        | inr good ↦ elim (Bool-cases (is_zero a.0)) [
          | inr e ↦ rw (good, e) (left_at_both epoll k channel good (rw e refl))
          | inl e ↦ elim (Bool-cases (is_listening channel.input_protocol)) [
            | inr off ↦ rw (good, e, off) (left_at_both epoll k channel good (rw (e, off) refl))
            | inl on ↦
                rw (good, e, on, lt→ltb 0 c.skt open_skt)
                  (changed epoll k channel good (rw (e, on) refl))
          ]
        ]
      ])
