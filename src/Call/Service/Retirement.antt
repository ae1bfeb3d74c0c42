-- ===== src/Call/Service/Retirement.antt =====
-- The end of a call: `finalizeSession` and `releasePerCallResources`.
use ylp_software.Base.{
  ◌≡◌, refl, true, ap, ℕ, Bool, false, String, Option, none, some, arith, contains, is_some, ◌&&◌,
  contains-delete, lookup, lookup-erase, nat_same, string_same,
}
use ylp_software.Model.{CallType}
use ylp_software.Connection.CallRouting.{
  Reason, Ending, Marker, set_active_call, clear_active_call, has_active_call,
}
use ylp_software.Call.Audio.{Device, stop_audio_session, release_audio}
use ylp_software.Call.Store.{Store, deref, resolve_final_status, live_session, live, retire}
use ylp_software.Call.Service.{
  initiator, Calls, Continuation, Task, creating, with_session, terminate_call,
  handle_remote_call_ended, end_remotely, command, acknowledged, release_per_call_resources,
  ensure_session, reuse_or_create, is_connected,
}
use ylp_software.Call.Service.Running.{
  Outcome, tell_ended, tell_remote_ended, tell_late, finalize_session, finish_ending,
  finish_remote_ending, finish_late_log, resume,
}

-- Nothing of a call with the peer is left but its session.
pub record IsReleased (peer : String) (c : Calls) : Type 0 where
  pub no_audio : contains peer c.device.audio_session_peers ≡ false
  pub no_route : contains peer c.device.initial_route_set_for ≡ false
  pub disconnected : is_connected c peer ≡ false
  pub no_stream : c.remote_stream ≡ none
  pub not_busy : has_active_call c.marker peer ≡ false
  pub no_busy_handler : c.has_busy_reject_handler ≡ false
  pub no_ready_handler : c.call_ready_handler ≡ none

no-peer_audio :
    (peer : String) (d : Device)
    → contains peer (stop_audio_session peer d).audio_session_peers ≡ false
unfolding stop_audio_session
no-peer_audio peer d =
    ground (arith, string_same.same_iff peer peer, contains-delete peer peer d.audio_session_peers)

no-peer_route :
    (peer : String) (d : Device)
    → contains peer (release_audio peer d).initial_route_set_for ≡ false
unfolding release_audio
no-peer_route peer d = ground (
  arith,
  string_same.same_iff peer peer,
  contains-delete peer peer (stop_audio_session peer d).initial_route_set_for,
)

not-active : (peer : String) (m : Marker) → has_active_call (clear_active_call peer m) peer ≡ false
unfolding clear_active_call set_active_call
not-active peer m = ground arith

not-connected :
    (peer : String) (c : Calls) → is_connected (release_per_call_resources peer c) peer ≡ false
unfolding release_per_call_resources
not-connected peer c =
    ground (arith, string_same.same_iff peer peer, lookup-erase peer peer c.connected_state_by_peer)

release-IsReleased :
    (peer : String) (c : Calls) → IsReleased peer (release_per_call_resources peer c)
unfolding release_per_call_resources release_audio
release-IsReleased peer c = record {
  no_audio = no-peer_audio peer c.device;
  no_route = no-peer_route peer c.device;
  disconnected = not-connected peer c;
  no_stream = refl;
  not_busy = not-active peer c.marker;
  no_busy_handler = refl;
  no_ready_handler = refl;
}

-- The two ways in which a call ends: on this device, and by the message of the peer.
pub data Way : Type 0 where
  locally : Option Reason → ℕ → Way
  remotely : Ending → Way

abbrev pub end_call : Way → String → Calls → Calls × Option Task
end_call (locally reason now) peer c = terminate_call peer reason now c
end_call (remotely payload) peer c = handle_remote_call_ended peer payload c

-- The end of an operation that goes on, if it has to, in the state `later`.
abbrev pub finish : Calls × Option Task → Outcome → Calls → Calls
finish (c, none) o later = c
finish (c, some t) o later = (resume t o later).0

end_remotely-IsReleased :
    (peer : String) (payload : Ending) (c : Calls) (o live : Option ℕ) (out : Outcome)
    (later : Calls)
    → IsReleased peer (finish (end_remotely peer payload c o live) out later)
unfolding resume finish_remote_ending finish_late_log
end_remotely-IsReleased peer payload c none live out later =
    release-IsReleased peer (tell_late peer payload.message_id out later)
end_remotely-IsReleased peer payload c (some ref) none out later =
    release-IsReleased peer (command (acknowledged peer payload.message_id) c)
end_remotely-IsReleased peer payload c (some ref) (some l) out later =
    release-IsReleased peer
      (tell_remote_ended peer payload.message_id (finalize_session peer (some l) later))

abbrev end_locally : String → Option Reason → ℕ → Calls → Outcome → Calls → Calls
end_locally peer reason now c o later =
    let ref = lookup peer c.store.call_sessions in
    let session = deref c.store ref in
    let live = live_session c.store peer in
    tell_ended peer ref live (resolve_final_status reason session) now (initiator c peer session) o
      (finalize_session peer live later)

finish-IsReleased :
    (way : Way) (peer : String) (c later : Calls) (o : Outcome)
    → IsReleased peer (finish (end_call way peer c) o later)
unfolding terminate_call handle_remote_call_ended resume finish_ending
finish-IsReleased (locally reason now) peer c later o =
    release-IsReleased peer (end_locally peer reason now c o later)
finish-IsReleased (remotely payload) peer c later o =
    end_remotely-IsReleased peer payload c (lookup peer c.store.call_sessions)
      (live_session c.store peer) o later

lookup-retire :
    (peer : String) (ref : ℕ) (s : Store) → lookup peer (retire peer ref s).call_sessions ≡ none
unfolding retire
lookup-retire peer ref s =
    ground (arith, string_same.same_iff peer peer, lookup-erase peer peer s.call_sessions)

abbrev Creates :
    Calls → String → CallType → Bool → Option String → Option String → Continuation → Type 0
Creates c peer type incoming conversation call_id next =
    (ensure_session peer type incoming conversation call_id next c).1
    ≡ some (creating peer type incoming conversation call_id next)

creates :
    (c : Calls) (peer : String) (type : CallType) (incoming : Bool)
    (conversation call_id : Option String) (next : Continuation)
    → lookup peer c.store.call_sessions ≡ none
    → Creates c peer type incoming conversation call_id next
unfolding ensure_session
creates c peer type incoming conversation call_id next h =
    ap (λ o. (reuse_or_create peer type incoming conversation call_id next c (live c.store o)).1) h

lookup-finalize :
    (peer : String) (o : Option ℕ) (ref : ℕ) (c : Calls)
    → o ≡ some ref
    → lookup peer (finalize_session peer o c).store.call_sessions ≡ none
unfolding finalize_session
lookup-finalize peer none ref c h = absurd (ground (arith, h))
lookup-finalize peer (some r) ref c h = lookup-retire peer r c.store

lookup-end_remotely :
    (peer : String) (payload : Ending) (c later : Calls) (o : Outcome) (r l : Option ℕ) (ref : ℕ)
    → l ≡ some ref
    → live c.store r ≡ l
    → lookup peer (finish (end_remotely peer payload c r l) o later).store.call_sessions ≡ none
unfolding resume finish_remote_ending release_per_call_resources finalize_session
lookup-end_remotely peer payload c later o none l ref h k = absurd (ground (arith, h, k))
lookup-end_remotely peer payload c later o (some r) none ref h k = absurd (ground (arith, h))
lookup-end_remotely peer payload c later o (some r) (some l) ref h k =
    lookup-retire peer l later.store

lookup-end :
    (way : Way) (peer : String) (c later : Calls) (o : Outcome) (ref : ℕ)
    → live_session c.store peer ≡ some ref
    → lookup peer (finish (end_call way peer c) o later).store.call_sessions ≡ none
unfolding terminate_call handle_remote_call_ended resume finish_ending release_per_call_resources
lookup-end (locally reason now) peer c later o ref h =
    lookup-finalize peer (live_session c.store peer) ref later h
lookup-end (remotely payload) peer c later o ref h =
    lookup-end_remotely peer payload c later o (lookup peer c.store.call_sessions)
      (live_session c.store peer) ref h refl

end-Creates :
    (way : Way) (peer : String) (c later : Calls) (o : Outcome) (ref : ℕ) (type : CallType)
    (incoming : Bool) (conversation call_id : Option String) (next : Continuation)
    → live_session c.store peer ≡ some ref
    → Creates (finish (end_call way peer c) o later) peer type incoming conversation call_id next
end-Creates way peer c later o ref type incoming conversation call_id next h =
    creates (finish (end_call way peer c) o later) peer type incoming conversation call_id next
      (lookup-end way peer c later o ref h)

-- Whether `ensureSession` hands back a session that is there.
abbrev pub is_reused : Option Task → Bool
is_reused (some (with_session peer ref next)) = true
is_reused task = false

reused-live :
    (o : Option ℕ) (r : Option Task)
    → ((ref : ℕ) → o ≡ some ref → is_reused r ≡ false)
    → is_some o && is_reused r ≡ false
reused-live none r h = refl
reused-live (some ref) r h = h ref refl

-- However a call with a peer ends, whatever the database and the transport do meanwhile, and in
-- whatever state the ending operation finds the service when it goes on, nothing of the call is left
-- when it is done: the peer owns no audio session and no initial route, it is not connected and not
-- the one this device is busy with, there is no remote stream, and there is no handler for busy or
-- ready answers. If the call had a session that was not finalized, the next operation on a call with
-- the peer is not handed a session that is there.
pub end-IsReleased :
    (way : Way) (peer : String) (c later : Calls) (o : Outcome) (type : CallType) (incoming : Bool)
    (conversation call_id : Option String) (next : Continuation)
    → let d = finish (end_call way peer c) o later in
      IsReleased peer d
      × (is_some (live_session c.store peer)
            && is_reused (ensure_session peer type incoming conversation call_id next d).1
          ≡ false)
end-IsReleased way peer c later o type incoming conversation call_id next = (
  finish-IsReleased way peer c later o,
  reused-live (live_session c.store peer)
      (ensure_session peer type incoming conversation call_id next
        (finish (end_call way peer c) o later)).1
      (λ ref h.
        ap is_reused
          (end-Creates way peer c later o ref type incoming conversation call_id next h)),
)
