-- ===== src/Model/Media.antt =====
-- model/queue.go: the URI of a file that is played, and the table of tones.
use Prim.Native.String.{◌++◌}
use call_center.Prelude.{String, List, [], ◌∷◌, if◌then◌else◌, ◌==s◌, ◌||◌}
use call_center.Prelude.Int.{ℤ}
use call_center.Prelude.Fmt.{show_int}

pub record RingtoneFile : Type 0 where
  pub id : ℤ
  pub mime : String  -- `Type`

unfoldable pub ringtone_uri : ℤ → ℤ → String → String
unfolding show_int
ringtone_uri domain_id id mime_type =
    if mime_type ==s "audio/mp3" || mime_type ==s "audio/mpeg"
    then "shout://$${cdr_url}/sys/media/"
      ++ show_int id
      ++ "/stream?domain_id="
      ++ show_int domain_id
      ++ "&.mp3"
    else if mime_type ==s "audio/wav"
    then "http_cache://http://$${cdr_url}/sys/media/"
      ++ show_int id
      ++ "/stream?domain_id="
      ++ show_int domain_id
      ++ "&.wav"
    else ""

abbrev pub tone_list : List (String × String)
tone_list =
    ("none", "")
    ∷ ("default", "L=1;%(500,500,1000)")
    ∷ ("at1", "v=-7;%(100,0,941.0,1477.0)")
    ∷ ("at2", "v=-7;>=2;+=.1;%(140,0,350,440)")
    ∷ ("australian", "L=1;%(200,100,400,425)")
    ∷ ("egypt", "L=1;%(200,100,475,375)")
    ∷ ("germany", "L=1;%(500,0,425)")
    ∷ ("france", "L=1;%(150,350,440)")
    ∷ ("spain", "L=1;%(150,300,425)")
    ∷ ("uk", "L=1;%(200,100,400,450)")
    ∷ ("us", "L=1;%(100,200,440,480)")
    ∷ []
