-- ===== src/Detector/Words/Second.antt =====
-- `BIP39Words` of internal/detector/bip39.go, lines 147 to 284.
use Prim.Native.String.{String}
use dnn_daemon.Common.{List, [], ◌∷◌}

unfoldable pub second_words : List String
second_words =
    "film" ∷ "filter" ∷ "final" ∷ "find" ∷ "fine" ∷ "finger" ∷ "finish" ∷ "fire" ∷ "firm" ∷ "first"
    ∷ "fiscal" ∷ "fish" ∷ "fitness" ∷ "fix" ∷ "flag" ∷ "flame" ∷ "flash" ∷ "flat" ∷ "flavor"
    ∷ "flee" ∷ "flight" ∷ "flip" ∷ "float" ∷ "flock" ∷ "floor" ∷ "flower" ∷ "fluid" ∷ "flush"
    ∷ "fly" ∷ "foam" ∷ "focus" ∷ "fog" ∷ "foil" ∷ "fold" ∷ "follow" ∷ "food" ∷ "foot" ∷ "force"
    ∷ "forest" ∷ "forget" ∷ "fork" ∷ "fortune" ∷ "forum" ∷ "forward" ∷ "fossil" ∷ "foster" ∷ "found"
    ∷ "fox" ∷ "fragile" ∷ "frame" ∷ "frequent" ∷ "fresh" ∷ "friend" ∷ "fringe" ∷ "frog" ∷ "front"
    ∷ "frost" ∷ "frown" ∷ "frozen" ∷ "fruit" ∷ "fuel" ∷ "funny" ∷ "furnace" ∷ "fury" ∷ "future"
    ∷ "gadget" ∷ "gain" ∷ "galaxy" ∷ "gallery" ∷ "game" ∷ "gap" ∷ "garage" ∷ "garbage" ∷ "garden"
    ∷ "garlic" ∷ "garment" ∷ "gasp" ∷ "gate" ∷ "gather" ∷ "gauge" ∷ "gaze" ∷ "general" ∷ "genius"
    ∷ "genre" ∷ "gentle" ∷ "genuine" ∷ "gesture" ∷ "ghost" ∷ "giant" ∷ "gift" ∷ "giggle" ∷ "ginger"
    ∷ "giraffe" ∷ "girl" ∷ "give" ∷ "glad" ∷ "glance" ∷ "glare" ∷ "glass" ∷ "glide" ∷ "glimpse"
    ∷ "globe" ∷ "gloom" ∷ "glory" ∷ "glove" ∷ "glow" ∷ "glue" ∷ "goat" ∷ "goddess" ∷ "gold" ∷ "good"
    ∷ "goose" ∷ "gorilla" ∷ "gospel" ∷ "gossip" ∷ "govern" ∷ "gown" ∷ "grab" ∷ "grace" ∷ "grain"
    ∷ "grant" ∷ "grape" ∷ "grass" ∷ "gravity" ∷ "great" ∷ "green" ∷ "grid" ∷ "grief" ∷ "grit"
    ∷ "grocery" ∷ "group" ∷ "grow" ∷ "grunt" ∷ "guard" ∷ "guess" ∷ "guide" ∷ "guilt" ∷ "guitar"
    ∷ "gun" ∷ "gym" ∷ "habit" ∷ "hair" ∷ "half" ∷ "hammer" ∷ "hamster" ∷ "hand" ∷ "happy" ∷ "harbor"
    ∷ "hard" ∷ "harsh" ∷ "harvest" ∷ "hat" ∷ "have" ∷ "hawk" ∷ "hazard" ∷ "head" ∷ "health"
    ∷ "heart" ∷ "heavy" ∷ "hedgehog" ∷ "height" ∷ "hello" ∷ "helmet" ∷ "help" ∷ "hen" ∷ "hero"
    ∷ "hidden" ∷ "high" ∷ "hill" ∷ "hint" ∷ "hip" ∷ "hire" ∷ "history" ∷ "hobby" ∷ "hockey" ∷ "hold"
    ∷ "hole" ∷ "holiday" ∷ "hollow" ∷ "home" ∷ "honey" ∷ "hood" ∷ "hope" ∷ "horn" ∷ "horror"
    ∷ "horse" ∷ "hospital" ∷ "host" ∷ "hotel" ∷ "hour" ∷ "hover" ∷ "hub" ∷ "huge" ∷ "human"
    ∷ "humble" ∷ "humor" ∷ "hundred" ∷ "hungry" ∷ "hunt" ∷ "hurdle" ∷ "hurry" ∷ "hurt" ∷ "husband"
    ∷ "hybrid" ∷ "ice" ∷ "icon" ∷ "idea" ∷ "identify" ∷ "idle" ∷ "ignore" ∷ "illegal" ∷ "illness"
    ∷ "image" ∷ "imitate" ∷ "immense" ∷ "immune" ∷ "impact" ∷ "impose" ∷ "improve" ∷ "impulse"
    ∷ "inch" ∷ "include" ∷ "income" ∷ "increase" ∷ "index" ∷ "indicate" ∷ "indoor" ∷ "industry"
    ∷ "infant" ∷ "inflict" ∷ "inform" ∷ "inhale" ∷ "inherit" ∷ "initial" ∷ "inject" ∷ "injury"
    ∷ "inmate" ∷ "inner" ∷ "innocent" ∷ "input" ∷ "inquiry" ∷ "insane" ∷ "insect" ∷ "inside"
    ∷ "inspire" ∷ "install" ∷ "intact" ∷ "interest" ∷ "into" ∷ "invest" ∷ "invite" ∷ "involve"
    ∷ "iron" ∷ "island" ∷ "isolate" ∷ "issue" ∷ "item" ∷ "ivory" ∷ "jacket" ∷ "jaguar" ∷ "jar"
    ∷ "jazz" ∷ "jealous" ∷ "jeans" ∷ "jelly" ∷ "jewel" ∷ "job" ∷ "join" ∷ "joke" ∷ "journey" ∷ "joy"
    ∷ "judge" ∷ "juice" ∷ "jump" ∷ "jungle" ∷ "junior" ∷ "junk" ∷ "just" ∷ "kangaroo" ∷ "keen"
    ∷ "keep" ∷ "ketchup" ∷ "key" ∷ "kick" ∷ "kidney" ∷ "kind" ∷ "kingdom" ∷ "kiss" ∷ "kitchen"
    ∷ "kite" ∷ "kitten" ∷ "kiwi" ∷ "knee" ∷ "knife" ∷ "knock" ∷ "know" ∷ "label" ∷ "labor"
    ∷ "ladder" ∷ "lady" ∷ "lake" ∷ "lamp" ∷ "language" ∷ "laptop" ∷ "large" ∷ "later" ∷ "latin"
    ∷ "laugh" ∷ "laundry" ∷ "lava" ∷ "lawn" ∷ "lawsuit" ∷ "layer" ∷ "lazy" ∷ "leader" ∷ "leaf"
    ∷ "learn" ∷ "leave" ∷ "lecture" ∷ "left" ∷ "legal" ∷ "legend" ∷ "leisure" ∷ "lemon" ∷ "lend"
    ∷ "length" ∷ "lens" ∷ "leopard" ∷ "lesson" ∷ "letter" ∷ "level" ∷ "liar" ∷ "liberty" ∷ "library"
    ∷ "license" ∷ "life" ∷ "lift" ∷ "light" ∷ "like" ∷ "limb" ∷ "limit" ∷ "link" ∷ "lion" ∷ "liquid"
    ∷ "list" ∷ "little" ∷ "live" ∷ "lizard" ∷ "load" ∷ "loan" ∷ "lobster" ∷ "local" ∷ "lock"
    ∷ "logic" ∷ "lonely" ∷ "long" ∷ "loop" ∷ "lottery" ∷ "loud" ∷ "lounge" ∷ "love" ∷ "loyal"
    ∷ "lucky" ∷ "luggage" ∷ "lumber" ∷ "lunar" ∷ "lunch" ∷ "luxury" ∷ "lyrics" ∷ "machine" ∷ "mad"
    ∷ "magic" ∷ "magnet" ∷ "maid" ∷ "mail" ∷ "main" ∷ "major" ∷ "make" ∷ "mammal" ∷ "manage"
    ∷ "mandate" ∷ "mango" ∷ "mansion" ∷ "manual" ∷ "maple" ∷ "marble" ∷ "march" ∷ "margin"
    ∷ "marine" ∷ "market" ∷ "marriage" ∷ "mask" ∷ "mass" ∷ "master" ∷ "match" ∷ "material" ∷ "math"
    ∷ "matrix" ∷ "matter" ∷ "maximum" ∷ "maze" ∷ "meadow" ∷ "mean" ∷ "measure" ∷ "meat" ∷ "mechanic"
    ∷ "medal" ∷ "media" ∷ "melody" ∷ "melt" ∷ "member" ∷ "memory" ∷ "mention" ∷ "menu" ∷ "mercy"
    ∷ "merge" ∷ "merit" ∷ "merry" ∷ "mesh" ∷ "message" ∷ "metal" ∷ "method" ∷ "middle" ∷ "midnight"
    ∷ "milk" ∷ "million" ∷ "mimic" ∷ "mind" ∷ "minimum" ∷ "minor" ∷ "minute" ∷ "miracle" ∷ "mirror"
    ∷ "misery" ∷ "miss" ∷ "mistake" ∷ "mixed" ∷ "mixture" ∷ "mobile" ∷ "model" ∷ "modify" ∷ "moment"
    ∷ "monitor" ∷ "monkey" ∷ "monster" ∷ "month" ∷ "moon" ∷ "moral" ∷ "more" ∷ "morning"
    ∷ "mosquito" ∷ "mother" ∷ "motion" ∷ "motor" ∷ "mountain" ∷ "mouse" ∷ "move" ∷ "movie" ∷ "much"
    ∷ "muffin" ∷ "mule" ∷ "multiply" ∷ "muscle" ∷ "museum" ∷ "mushroom" ∷ "music" ∷ "must"
    ∷ "mutual" ∷ "myself" ∷ "mystery" ∷ "myth" ∷ "naive" ∷ "name" ∷ "napkin" ∷ "narrow" ∷ "nasty"
    ∷ "nation" ∷ "nature" ∷ "near" ∷ "neck" ∷ "need" ∷ "negative" ∷ "neglect" ∷ "neither" ∷ "nephew"
    ∷ "nerve" ∷ "nest" ∷ "network" ∷ "neutral" ∷ "never" ∷ "news" ∷ "next" ∷ "nice" ∷ "night"
    ∷ "noble" ∷ "noise" ∷ "nominee" ∷ "noodle" ∷ "normal" ∷ "north" ∷ "nose" ∷ "notable" ∷ "note"
    ∷ "nothing" ∷ "notice" ∷ "novel" ∷ "now" ∷ "nuclear" ∷ "number" ∷ "nurse" ∷ "nut" ∷ "oak"
    ∷ "obey" ∷ "object" ∷ "oblige" ∷ "obscure" ∷ "observe" ∷ "obtain" ∷ "obvious" ∷ "occur"
    ∷ "ocean" ∷ "october" ∷ "odor" ∷ "offer" ∷ "office" ∷ "often" ∷ "oil" ∷ "okay" ∷ "old" ∷ "olive"
    ∷ "olympic" ∷ "omit" ∷ "once" ∷ "one" ∷ "onion" ∷ "online" ∷ "only" ∷ "open" ∷ "opera"
    ∷ "opinion" ∷ "oppose" ∷ "option" ∷ "orange" ∷ "orbit" ∷ "orchard" ∷ "order" ∷ "ordinary"
    ∷ "organ" ∷ "orient" ∷ "original" ∷ "orphan" ∷ "ostrich" ∷ "other" ∷ "outdoor" ∷ "outer"
    ∷ "output" ∷ "outside" ∷ "oval" ∷ "oven" ∷ "over" ∷ "owner" ∷ "oxygen" ∷ "oyster" ∷ "ozone"
    ∷ "pact" ∷ "paddle" ∷ "page" ∷ "pair" ∷ "palace" ∷ "palm" ∷ "panda" ∷ "panel" ∷ "panic"
    ∷ "panther" ∷ "paper" ∷ "parade" ∷ "parent" ∷ "park" ∷ "parrot" ∷ "party" ∷ "pass" ∷ "patch"
    ∷ "path" ∷ "patient" ∷ "patrol" ∷ "pattern" ∷ "pause" ∷ "pave" ∷ "payment" ∷ "peace" ∷ "peanut"
    ∷ "pear" ∷ "peasant" ∷ "pelican" ∷ "penalty" ∷ "pencil" ∷ "people" ∷ "pepper" ∷ "perfect"
    ∷ "permit" ∷ "person" ∷ "pet" ∷ "phone" ∷ "photo" ∷ "phrase" ∷ "physical" ∷ "piano" ∷ "picnic"
    ∷ "picture" ∷ "piece" ∷ "pigeon" ∷ "pill" ∷ "pilot" ∷ "pink" ∷ "pioneer" ∷ "pipe" ∷ "pistol"
    ∷ "pitch" ∷ "pizza" ∷ "place" ∷ "planet" ∷ "plastic" ∷ "plate" ∷ "play" ∷ "please" ∷ "pledge"
    ∷ "pluck" ∷ "plug" ∷ "plunge" ∷ "poem" ∷ "poet" ∷ "point" ∷ "polar" ∷ "pole" ∷ "police" ∷ "pond"
    ∷ "pony" ∷ "pool" ∷ "popular" ∷ "portion" ∷ "position" ∷ "possible" ∷ "post" ∷ "potato"
    ∷ "pottery" ∷ "poverty" ∷ "powder" ∷ "power" ∷ "practice" ∷ "praise" ∷ "predict" ∷ "prefer"
    ∷ "prepare" ∷ "present" ∷ "pretty" ∷ "prevent" ∷ "price" ∷ "pride" ∷ "primary" ∷ "print"
    ∷ "priority" ∷ "prison" ∷ "private" ∷ "prize" ∷ "problem" ∷ "process" ∷ "produce" ∷ "profit"
    ∷ "program" ∷ "project" ∷ "promote" ∷ "proof" ∷ "property" ∷ []
