-- ===== src/Call/Audio.antt =====
-- Audio of a call (services/call-audio-service.ts), and the audio sessions of `CallService`
-- (`startAudioSession`, `stopAudioSession`). What `InCallManager` was told last is kept as three
-- switches.
use ylp_software.Base.{
  Bool, true, false, ◌&&◌, String, List, [], ◌∷◌, ◌++◌, contains, add, delete, string_same,
  if◌then◌else◌,
}
use ylp_software.Model.{CallType, audio, video}

pub data AudioRoute : Type 0 where
  earpiece speaker headset bluetooth : AudioRoute

pub data AudioEvent : Type 0 where
  routes_updated : List AudioRoute → AudioEvent
  route_changed : AudioRoute → List AudioRoute → AudioEvent

pub record Device : Type 0 where
  pub current_audio_route : AudioRoute
  pub available_routes : List AudioRoute
  pub is_bluetooth_connected : Bool
  pub is_headset_connected : Bool
  pub has_subscriptions : Bool
  pub initial_route_set_for : List String
  pub audio_session_peers : List String
  pub in_call : Bool
  pub keep_screen_on : Bool
  pub speakerphone : Bool
  pub events : List AudioEvent

abbrev pub silent : Device
silent = record {
  current_audio_route = speaker;
  available_routes = [];
  is_bluetooth_connected = false;
  is_headset_connected = false;
  has_subscriptions = false;
  initial_route_set_for = [];
  audio_session_peers = [];
  in_call = false;
  keep_screen_on = false;
  speakerphone = false;
  events = [];
}

abbrev pub is_speaker : AudioRoute → Bool
is_speaker speaker = true
is_speaker route = false

-- `setAudioRoute`
unfoldable pub set_audio_route : AudioRoute → Device → Device
set_audio_route route d = record d {
  current_audio_route = route;
  speakerphone = is_speaker route;
  events = d.events ++ route_changed route d.available_routes ∷ [];
}

abbrev pub when : Bool → List AudioRoute → List AudioRoute
when true routes = routes
when false routes = []

-- `updateAvailableRoutes`
unfoldable pub update_available_routes : Device → Device
update_available_routes d =
    let routes =
      earpiece
      ∷ speaker
      ∷ (when d.is_headset_connected (headset ∷ [])
          ++ when d.is_bluetooth_connected (bluetooth ∷ [])) in
    record d { available_routes = routes; events = d.events ++ routes_updated routes ∷ [] }

-- The listener of `WiredHeadset`.
unfoldable pub on_wired_headset : Bool → Device → Device
unfolding set_audio_route update_available_routes
on_wired_headset plugged d =
    let u = update_available_routes (record d { is_headset_connected = plugged }) in
    if plugged then set_audio_route headset u else u

-- The listener of `BluetoothHeadset`.
unfoldable pub on_bluetooth_headset : Bool → Device → Device
unfolding set_audio_route update_available_routes
on_bluetooth_headset linked d =
    let u = update_available_routes (record d { is_bluetooth_connected = linked }) in
    if linked then set_audio_route bluetooth u else u

-- The listener of `Proximity`.
unfoldable pub on_proximity : Bool → Device → Device
unfolding set_audio_route
on_proximity is_near d =
    if is_near && is_speaker d.current_audio_route then set_audio_route earpiece d else d

-- `toggleSpeaker`
unfoldable pub toggle_speaker : Device → Device
unfolding set_audio_route
toggle_speaker d =
    set_audio_route (if is_speaker d.current_audio_route then earpiece else speaker) d

abbrev pub initial_route : CallType → AudioRoute
initial_route audio = earpiece
initial_route video = speaker

abbrev pub route_first : CallType → String → Device → Device
route_first type peer d = record (set_audio_route (initial_route type) d) {
  initial_route_set_for = add d.initial_route_set_for peer;
}

-- `startAudioSession`
unfoldable pub start_audio_session : CallType → String → Device → Device
unfolding set_audio_route
start_audio_session type peer d =
    let s = record d {
      in_call = true;
      keep_screen_on = true;
      audio_session_peers = add d.audio_session_peers peer;
      has_subscriptions = true;
    } in
    if contains peer d.initial_route_set_for then s else route_first type peer s

-- `stopAudioSession`
unfoldable pub stop_audio_session : String → Device → Device
stop_audio_session peer d =
    if contains peer d.audio_session_peers
    then record d {
      audio_session_peers = delete peer d.audio_session_peers;
      in_call = false;
      keep_screen_on = false;
      has_subscriptions = false;
    }
    else d

-- What `releasePerCallResources` does to the audio.
unfoldable pub release_audio : String → Device → Device
unfolding stop_audio_session
release_audio peer d =
    let s = stop_audio_session peer d in
    record s { initial_route_set_for = delete peer s.initial_route_set_for }

pub data DeviceEvent : Type 0 where
  wired_headset bluetooth_headset proximity : Bool → DeviceEvent
  speaker_toggled : DeviceEvent

-- The listeners of `setupAudioEventListeners`, and `toggleSpeaker`.
unfoldable pub on_device_event : DeviceEvent → Device → Device
unfolding on_wired_headset on_bluetooth_headset on_proximity toggle_speaker
on_device_event (wired_headset b) d = if d.has_subscriptions then on_wired_headset b d else d
on_device_event (bluetooth_headset b) d =
    if d.has_subscriptions then on_bluetooth_headset b d else d
on_device_event (proximity b) d = if d.has_subscriptions then on_proximity b d else d
on_device_event speaker_toggled d = toggle_speaker d
