-- ===== src/Tests/Daemon.antt =====
-- Runs of the daemon's maps of internal/daemon/daemon.go.
use headless_terminal.Base.{
  ℕ, ◌+◌, ◌≤◌, ◌≡◌, refl, ap, Bytes, none, some, List, [], ◌∷◌, ◌++◌, codes, err, bytes_eq, arith,
  has_prefix,
}
use headless_terminal.Daemon.{
  entries, lookup_entry, lookup, delete_entry, delete, insert, Handle, Registry, new_registry,
  ambiguous, scan, by_name, resolve, name_taken, register, unregister, park, range,
}
use headless_terminal.Daemon.Changes.{Agrees, is_new, changes, runs, removes, Reach-Agrees}
use headless_terminal.Daemon.Names.{Linked, register-Linked, double_run_loses_name}
use mathlib.Core.Quot
use headless_terminal.Daemon.Resolve.{swap}
use headless_terminal.Daemon.Resolve.Unordered.{
  Entries, Sessions, find_session, resolve_in, resolve_in_lem,
}
use headless_terminal.Daemon.Handlers.{World}
use headless_terminal.Daemon.Handlers.Run.{loses_client, resume}
use headless_terminal.Daemon.Sends
use headless_terminal.Daemon.Sends.{times_queued, times_sent, then_section, sent_once}
use headless_terminal.Daemon.Sends.Forgetting.{parked_is_forgotten}
use headless_terminal.Tests.Session.{started}
use headless_terminal.Daemon.Waiting.{nothing, parks}
use headless_terminal.Daemon.Follow.{parked_is_served}

abbrev pub one : Handle
one = record { id = codes "a1"; name = codes "vim"; object = 0 }

abbrev pub two : Handle
two = record { id = codes "a11"; name = codes "vim"; object = 1 }

abbrev pub with_one : Registry
with_one = record new_registry {
  sessions = entries ((codes "a1", one) ∷ []);
  names = entries ((codes "vim", codes "a1") ∷ []);
}

abbrev with_both : Registry
with_both = record new_registry {
  sessions = entries ((codes "a11", two) ∷ (codes "a1", one) ∷ []);
  names = entries ((codes "vim", codes "a11") ∷ []);
}

register-one : register one new_registry ≡ some with_one
unfolding register insert delete_entry delete lookup lookup_entry
register-one = refl

register-two : register two with_one ≡ some with_both
unfolding register insert delete_entry delete lookup bytes_eq lookup_entry
register-two = refl

resolve_ambiguous : resolve with_both (codes "a") ≡ err (ambiguous (codes "a"))
unfolding resolve by_name lookup lookup_entry bytes_eq scan has_prefix
resolve_ambiguous = refl

new_registry-Linked : Linked new_registry
unfolding lookup lookup_entry
new_registry-Linked = record {
  keyed = λ k s h. absurd (ground (arith, h));
  named = λ k s h n. absurd (ground (arith, h));
  leads = λ n id h. absurd (ground (arith, h));
  no_empty = refl;
}

pub with_one-Linked : Linked with_one
unfolding name_taken lookup lookup_entry
with_one-Linked = register-Linked one new_registry new_registry-Linked refl refl register-one

Reach-Agrees_example : Agrees (unregister one with_one)
unfolding name_taken lookup lookup_entry bytes_eq resolve by_name
Reach-Agrees_example =
    Reach-Agrees
      (changes (changes is_new (runs one refl refl register-one)) (removes (codes "vim") one refl))

double_run_loses_name_example :
    (lookup (codes "a11") (unregister one with_both).sessions ≡ some two)
    × (lookup (codes "vim") (unregister one with_both).names ≡ none)
    × (¬ Linked (unregister one with_both))
unfolding name_taken lookup lookup_entry
double_run_loses_name_example =
    double_run_loses_name one two new_registry (λ e. cc) refl (λ e. cc) refl refl register-one
      register-two

-- A watcher waits for the name, then another for another name, and then the session comes.
abbrev waiting : Registry
waiting = record new_registry { pending = entries ((codes "vim", 0 ∷ []) ∷ []); next_chan = 1 }

abbrev both_wait : Registry
both_wait = record new_registry {
  pending = entries ((codes "top", 1 ∷ []) ∷ (codes "vim", 0 ∷ []) ∷ []);
  next_chan = 2;
}

abbrev served : Registry
served = record with_one {
  pending = entries ((codes "top", 1 ∷ []) ∷ []);
  next_chan = 2;
  sent = (0, one) ∷ [];
}

parked_is_served_example :
    ((front : List (ℕ × Handle)) × (back : List (ℕ × Handle)) × (served.sent
        ≡ front ++ (0, one) ∷ back))
    × (lookup (codes "vim") served.pending ≡ none)
unfolding park register insert delete_entry delete lookup lookup_entry bytes_eq
parked_is_served_example =
    parked_is_served (codes "vim") new_registry waiting both_wait served 0 one refl
      (parks waiting waiting both_wait (codes "top") 1 (nothing waiting) refl) refl (λ e. cc) refl

-- The first watcher's client goes away while the second waits.
abbrev waiting_world : World Bytes
waiting_world = record { registry = both_wait; objects = λ i. started }

parked_is_forgotten_example :
    (times_queued 0 (range (resume waiting_world (codes "vim") 0 loses_client).0.registry.pending)
      ≡ 0)
    × (times_sent 0 (resume waiting_world (codes "vim") 0 loses_client).0.registry.sent ≡ 0)
unfolding park insert delete_entry delete lookup lookup_entry bytes_eq
parked_is_forgotten_example =
    parked_is_forgotten (codes "vim") new_registry waiting waiting_world 0 Sends.is_new refl
      (parks waiting waiting both_wait (codes "top") 1 (nothing waiting) refl)

sent_once_example :
    (times_queued 0 (range served.pending) + times_sent 0 served.sent ≤ 1)
    × (times_queued 2 (range served.pending) + times_sent 2 served.sent ≡ 0)
unfolding park register insert delete_entry delete lookup lookup_entry bytes_eq
sent_once_example = sent_once 0 (
    then_section
      (then_section (then_section Sends.is_new (Sends.parks (codes "vim") refl))
        (Sends.parks (codes "top") refl))
      (Sends.registers one refl))

-- The two sessions in either order.
abbrev one_order : Entries
unfolding lookup_entry
one_order = ((codes "a11", two) ∷ (codes "a1", one) ∷ [], (refl, (refl, tt)))

abbrev other_order : Entries
unfolding lookup_entry
other_order = ((codes "a1", one) ∷ (codes "a11", two) ∷ [], (refl, (refl, tt)))

resolve_in_example :
    (resolve_in with_both (codes "a") (Quot.mk one_order)
      ≡ resolve (record with_both { sessions = entries one_order.0 }) (codes "a"))
    × (◌≡◌ {A = Sessions} (Quot.mk one_order) (Quot.mk other_order))
    × (resolve_in with_both (codes "a") (Quot.mk one_order)
        ≡ resolve_in with_both (codes "a") (Quot.mk other_order))
unfolding lookup_entry
resolve_in_example =
    resolve_in_lem with_both (codes "a") (Quot.mk one_order) (Quot.mk other_order) one_order
      (λ k. ap (find_session k) (Quot.sound (swap (codes "a11", two) (codes "a1", one))))
